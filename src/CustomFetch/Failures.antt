-- ===== src/CustomFetch/Failures.antt =====
-- custom-fetch.ts: how long the message of an ApiError is (`buildErrorMessage`).
use agentchat_take_home.Base.{
  ℕ, ◌+◌, ◌≤◌, Text, codes, [], ◌∷◌, ◌++◌, some, arith, inl, inr, Bool-cases, text_eq, length,
  length-append, length-take-le, take, ltb,
}
use agentchat_take_home.Types.Json.{string}
use agentchat_take_home.Strings.{trim}
use agentchat_take_home.CustomFetch.Response.{Response}
use agentchat_take_home.CustomFetch.Errors.{
  value, truncate, build_error_message, prefix_of, join_message, truncated, nonempty,
}

truncate_bounds : (t : Text) → length (truncate t) ≤ 300
unfolding truncate
truncate_bounds t = elim (Bool-cases (ltb 300 (length t))) [
  | inl long ↦
      rw long (omega (arith, length-append {0} (take 299 t) (codes "…"), length-take-le {0} 299 t))
  | inr short ↦ rw short (ground (arith, short))
]

join_message_bounds :
    (p u : Text)
    → length u ≤ 300
    → (length p ≤ length (join_message p (some u)))
      × (length (join_message p (some u)) ≤ length p + 302)
join_message_bounds p u h =
    omega (arith, length-append {0} (p ++ codes ": ") u, length-append {0} p (codes ": "), h)

message_bounds :
    (show : ℕ → Text) (p x : Text)
    → (length p ≤ length (join_message p (truncated show (nonempty x))))
      × (length (join_message p (truncated show (nonempty x))) ≤ length p + 302)
message_bounds show p [] = omega arith
message_bounds show p (c ∷ t) = join_message_bounds p (truncate (c ∷ t)) (truncate_bounds (c ∷ t))

module _ (show : ℕ → Text) where
  -- The message of an error whose body is a text is at most 302 units longer than its start, which
  -- names the status.
  pub build_error_message_bounds :
      (r : Response) (t : Text)
      → (length (prefix_of show r) ≤ length (build_error_message show r (value (string t))))
        × (length (build_error_message show r (value (string t))) ≤ length (prefix_of show r) + 302)
  unfolding build_error_message
  build_error_message_bounds r t = message_bounds show (prefix_of show r) (trim t)
