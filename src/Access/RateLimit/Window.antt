-- ===== src/Access/RateLimit/Window.antt =====
-- About the requests that civicbrain/infra/rate_limit.py lets through in one window.
use civicbrain_v.Base.{
  ℕ, suc, ◌+◌, List, [], ◌∷◌, Bool, true, not, ltb, all, none, some, ◌≡◌, refl, arith,
}
use civicbrain_v.Text.{Text, text_eq_refl}
use civicbrain_v.Access.RateLimit.{Counters, RateLimiter, found, without, incr, admit, admits}

-- The answers to the requests from number `n + 1` on: those up to the limit pass.
abbrev pub up_to : ℕ → ℕ → List ℕ → List Bool
up_to max n [] = []
up_to max n (t ∷ ts) = not (ltb max (suc n)) ∷ up_to max (suc n) ts

module _ (r : RateLimiter) (k : Text) where
  -- The key stands first in the store, with this count and end.
  abbrev counted : ℕ → ℕ → Counters → Counters
  counted n end cs = record { key = k; count = n; expires_at = some end } ∷ cs

  incr-counted :
      (n end t : ℕ) (cs : Counters)
      → ltb t end ≡ true
      → incr r k t (counted n end cs) ≡ (suc n, counted (suc n) end (without k cs))
  unfolding incr
  incr-counted n end t cs h = rw (incr, text_eq_refl k, h, text_eq_refl k) refl

  admits-counted :
      (n end : ℕ) (ts : List ℕ) (cs : Counters)
      → all (λ t. ltb t end) ts ≡ true
      → (admits r k ts (counted n end cs)).0 ≡ up_to r.max_requests n ts
  unfolding admits admit
  admits-counted n end [] cs h = refl
  admits-counted n end (t ∷ ts) cs h =
      let now : ltb t end ≡ true = ground arith in
      let later : all (λ t. ltb t end) ts ≡ true = ground arith in
      rw
        (
          admits,
          admit,
          incr-counted n end t cs now,
          admits-counted (suc n) end ts (without k cs) later,
        )
        refl

  -- Where the key of a client is not in the store at its first request, the requests that the client
  -- makes within the window that begins with it are let through up to the limit of requests, in the
  -- order in which they are made, and refused after that.
  pub admits-up_to :
      (t : ℕ) (ts : List ℕ) (cs : Counters)
      → found t k cs ≡ none
      → all (λ u. ltb u (t + r.window_seconds)) ts ≡ true
      → (admits r k (t ∷ ts) cs).0 ≡ up_to r.max_requests 0 (t ∷ ts)
  unfolding admits admit incr
  admits-up_to t ts cs new h =
      rw (admits, admit, incr, new, admits-counted 1 (t + r.window_seconds) ts (without k cs) h)
        refl
