-- ===== src/Lib.antt =====
-- AgentChat's web client, under Agent-Stream-Chat/artifacts/agentmail-ui/src: the logic between the
-- server's streams and what the components show. Beside it stand the fetch wrapper of the generated
-- client (lib/api-client-react) and the sandbox that previews components (artifacts/mockup-sandbox).
--
-- The browser opens one stream of server-sent events for the conversation that is shown
-- (`openConversationStream`), and a hook (`useConversationStream`) folds the frames into messages
-- and membership events. The messages of the history and the live ones are merged into a feed, the
-- feed is folded into blocks, and the root component keeps badges, toasts and the list of agents, and
-- passes them to the sidebar, the header, the feed and the member list.
--
--   Base                 tests, lists, equality of keys and string literals that all modules share
--   JsMap, Sort, Strings Map, Array.prototype.sort and the string methods of the language, with their
--                        laws
--   Types                lib/types.ts: bodies, frames, display types, isSSEFrame and the adapters
--   Sse                  lib/sse.ts: the parser of a frame (Frame, Lines), the reader's buffer
--                        (Buffer) and openConversationStream (Open); Frame/Print and Frame/Blocks
--                        have what the server writes (internal/api/sse.go, observer.go), and
--                        Open/Printed whole streams of it; Open/Failures counts the calls of onError,
--                        also where a call of onFrame throws (Open/Calls)
--   Stream               hooks/useConversationStream.ts: one record for its states, refs and effect
--                        variables, one function for each callback (onFrame is on_frame, onOpen is
--                        on_open, and so on); Events has runs of the callbacks, System the effect
--                        with its streams and timers as a step relation, Feed has
--                        mergeHistoryAndLive and buildFeed; Resume has connections that fail and
--                        resume on one log, Received the callbacks of a stream run in the hook, and
--                        Received/Shown the feed behind them
--   AgentId, Api         lib/agent-id.ts and lib/api.ts: the stored identity (Overlap has calls that
--                        overlap), request, and the paths and options of each endpoint
--   Queries              hooks/useMessages.ts and hooks/useConversations.ts: the query functions and
--                        the keys
--   MessageFeed          components/MessageFeed.tsx: groupFeed, the state of a message's caret and
--                        button (Content), what is shown (View), and the scrolling (Scroll); Blocks
--                        and Folded are about what the blocks hold
--   MemberList           components/MemberList.tsx: the members and their groups
--   ConversationHeader   components/ConversationHeader.tsx: the counts
--   ConversationSidebar  components/ConversationSidebar.tsx: the order and the items
--   Flash                useIncrementFlash of components/ConversationHeader.tsx and MemberList.tsx
--   App                  App.tsx: heads and badges (Heads), toasts (Toasts), agents (Agents), what
--                        the components get (Screen), and the queries that membership changes
--                        invalidate (Invalidation)
--   CustomFetch          lib/api-client-react/src/custom-fetch.ts: the request that is prepared
--                        (Request), the parsers of bodies (Response, Body), the errors (Errors) and
--                        customFetch (Run); Thrown is about the error that a response becomes
--   Preview              artifacts/mockup-sandbox/mockupPreviewPlugin.ts: refresh, the module that it
--                        generates, and what makes it refresh (Watcher)
--   Sandbox              artifacts/mockup-sandbox/src/App.tsx: the path of a preview and the component
--                        that loads it
--   Tests                runs at concrete inputs
--
-- Conventions. A string is the list of its UTF-16 code units; a number of the protocol is a natural
-- number; a Date is its milliseconds, or none where it is invalid; undefined and null are none. A
-- clock is an argument at each place that reads it. What the platform does is a parameter or an
-- input: fetch and the reader by their answers, the decoder by its chunks of text, JSON.parse,
-- JSON.stringify, Number, String, encodeURIComponent and Date.parse by functions. A ref or a state of
-- React is a field, a callback is a function on the record, and an effect that leaves the hook is a
-- value. Each call of onFrame may return or throw, as a list says; onOpen and onError are taken to
-- return. A payload that lacks a field which its handler reads is left out. The Go server is a parameter: the
-- text of a stream is one that it writes, and a connection that resumes behind a number delivers the
-- frames of its log behind it.
--
-- Fuel. The inner loop of the reader runs on fuel: it is given the length of the buffer, and each
-- round takes two code units at least. All other loops are structural.
--
-- What a component shows is a record of what varies in its markup; a rendering that throws is none.
--
-- Not modelled: markup that does not vary, the clipboard, React Query, the copies of
-- shadcn/ui with their hooks, the configuration and generated files, the health route of api-server,
-- the Go server and the Python agents.
pub mod Base
pub mod JsMap
pub mod Strings
pub mod Sort
pub mod Types
pub mod Sse
pub mod Stream
pub mod Api
pub mod AgentId
pub mod MessageFeed
pub mod MemberList
pub mod ConversationHeader
pub mod ConversationSidebar
pub mod App
pub mod Flash
pub mod Queries
pub mod CustomFetch
pub mod Preview
pub mod Sandbox
pub mod Tests
