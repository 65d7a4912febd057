-- ===== src/Access/RateLimit.antt =====
-- RateLimiter of civicbrain/infra/rate_limit.py. INCR and EXPIRE act on a store of counters; that a
-- store that cannot be reached lets every call through is not part of it.
pub mod Window
use civicbrain_v.Base.{
  ℕ, suc, ◌+◌, List, [], ◌∷◌, ◌++◌, Bool, true, ◌&&◌, not, ltb, ◌==◌, if◌then◌else◌, find, select,
  Option, none, some,
}
use civicbrain_v.Text.{Text, codes, text_eq}

-- A key of the store, and when it runs out.
pub record Counter : Type 0 where
  pub key : Text
  pub count : ℕ
  pub expires_at : Option ℕ

abbrev pub Counters : Type 0
Counters = List Counter

pub record RateLimiter : Type 0 where
  pub max_requests : ℕ
  pub window_seconds : ℕ
  pub prefix : Text

-- Is the key still there at this time?
abbrev pub is_live : ℕ → Counter → Bool
is_live t c = elim c.expires_at [ none ↦ true | some e ↦ ltb t e ]

abbrev pub is_key : ℕ → Text → Counter → Bool
is_key t k c = text_eq c.key k && is_live t c

-- The count that INCR finds, and the time that the key has left.
abbrev pub found : ℕ → Text → Counters → Option Counter
found t k = find (is_key t k)

-- The store without the key.
abbrev pub without : Text → Counters → Counters
without k = select (λ c. not (text_eq c.key k))

-- INCR, and EXPIRE on the first count; the new count and the store.
unfoldable pub incr : RateLimiter → Text → ℕ → Counters → ℕ × Counters
unfolding text_eq
incr r k t cs = elim (found t k cs) [
  | none ↦
      (1, record { key = k; count = 1; expires_at = some (t + r.window_seconds) } ∷ without k cs)
  | some c ↦ (
    suc c.count,
    record { key = k; count = suc c.count; expires_at = c.expires_at } ∷ without k cs,
  )
]

-- `__call__` at a time, for the text of the key: is the request let through?
unfoldable pub admit : RateLimiter → Text → ℕ → Counters → Bool × Counters
unfolding incr
admit r k t cs = let (current, cs') = incr r k t cs in (not (ltb r.max_requests current), cs')

-- The requests of one client, at these times.
unfoldable pub admits : RateLimiter → Text → List ℕ → Counters → List Bool × Counters
unfolding admit
admits r k [] cs = ([], cs)
admits r k (t ∷ ts) cs =
    let (pass, cs1) = admit r k t cs in let (rest, cs2) = admits r k ts cs1 in (pass ∷ rest, cs2)

-- `f"rate_limit:{self.prefix}:{client_ip}"`
abbrev pub limit_key : RateLimiter → Option Text → Text
limit_key r client = elim client [
  | none ↦ codes "rate_limit:" ++ r.prefix ++ codes ":unknown_client"
  | some ip ↦ codes "rate_limit:" ++ r.prefix ++ codes ":" ++ ip
]
