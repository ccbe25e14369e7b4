-- ===== src/RateLimit/SortedSet.antt =====
-- What Redis documents of a sorted set, read off the history of commands: ZADD writes a member's
-- score, ZREMRANGEBYSCORE 0 m removes the scores up to m, ZREM removes a member. The expiry of the
-- key is left out: it comes a second after the last member has left the window.
use automatebro.Prelude.{
  ℕ, ◌≤◌, String, ◌≡◌, refl, false, not, some, List, [], ◌∷◌, arith, ltb, keep, any, length, str_eq,
  if◌then◌else◌,
}
use automatebro.Action.{Env, Effect, Trace, ok, evict, zadd, zrem, third_reply}

pub record Entry : Type 0 where
  pub score : ℕ
  pub member : String

abbrev pub newer_than : ℕ → List Entry → List Entry
newer_than limit = keep (λ e. ltb limit e.score)

abbrev pub without : String → List Entry → List Entry
without member = keep (λ e. not (str_eq e.member member))

-- One command's effect on the set under a key.
abbrev pub entries_after : String → Effect → List Entry → List Entry
entries_after key (evict k limit) es = if str_eq k key then newer_than limit es else es
entries_after key (zadd k score member) es =
    if str_eq k key then record { score = score; member = member } ∷ without member es else es
entries_after key (zrem k member) es = if str_eq k key then without member es else es
entries_after key _ es = es

abbrev pub entries : String → Trace → List Entry
entries key [] = []
entries key (e ∷ t) = entries_after key e (entries key t)

-- The third reply of the pipeline, ZCARD, is the number of members, whenever there are replies.
abbrev pub IsExact : Env → Type 0
IsExact env =
    (t : Trace) (key : String) (replies : List _)
    → env.exec t key ≡ ok (some replies)
    → third_reply replies ≡ length (entries key t)

-- No member is called so.
abbrev pub Fresh : String → List Entry → Type 0
Fresh member es = any (λ e. str_eq e.member member) es ≡ false

pub newer_than-newer_than :
    (a limit : ℕ) (es : List Entry)
    → a ≤ limit
    → newer_than limit (newer_than a es) ≡ newer_than limit es
newer_than-newer_than a limit [] h = refl
newer_than-newer_than a limit (e ∷ es) h = ground (arith, newer_than-newer_than a limit es h)

pub without-Fresh : (m : String) (es : List Entry) → Fresh m es → without m es ≡ es
without-Fresh m [] h = refl
without-Fresh m (e ∷ es) h = ground (arith, without-Fresh m es)

pub newer_than-Fresh :
    (m : String) (a : ℕ) (es : List Entry) → Fresh m es → Fresh m (newer_than a es)
newer_than-Fresh m a [] h = refl
newer_than-Fresh m a (e ∷ es) h = ground (arith, newer_than-Fresh m a es)
