-- ===== src/CustomFetch.antt =====
-- lib/api-client-react/src/custom-fetch.ts: the fetch wrapper of the generated client.
pub mod Response
pub mod Errors
pub mod Body
pub mod Request
pub mod Run
pub mod Fill
pub mod Headers
pub mod Failures
pub mod Thrown
pub mod BaseUrl
