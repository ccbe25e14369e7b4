-- ===== src/Leads/Tags/Laws.antt =====
-- What every update of a lead's tags keeps.
use automatebro.Prelude.{
  ℕ, zero, suc, ◌≤◌, ◌≡◌, refl, sym, Bool, true, false, Option, none, some, List, [], ◌∷◌, ◌++◌,
  arith, any, keep, All, length, take, length-take-le, Bool-cases, inl, inr, ◌==◌, or_default,
}
use automatebro.Records.{Text, Lead}
use automatebro.Action.{ok}
use automatebro.Text.{text_eq, trim}
use automatebro.Text.Search.{text_eq_iff}
use automatebro.Leads.Tags.{
  max_tag_length, max_tags_per_lead, UpdateLeadTagsInput, normalise_tag, cleaned, dedupe, is_used,
  with_added, with_removed, next_tags, update_lead_tags,
}

-- No tag stands twice.
abbrev pub Distinct : List Text → Type 0
Distinct [] = Unit
Distinct (t ∷ ts) = (any (text_eq t) ts ≡ false) × Distinct ts

-- Every tag has 1 to 64 code units.
abbrev pub Fits : Text → Type 0
Fits t = (1 ≤ length t) × (length t ≤ max_tag_length)

abbrev pub IsTidy : List Text → Type 0
IsTidy ts = Distinct ts × All Fits ts

text_eq-same : (t : Text) → text_eq t t ≡ true
text_eq-same t = (text_eq_iff t t).1 refl

-- What is like a tag is among the same tags.
any-like :
    (t u : Text) (seen : List Text)
    → text_eq u t ≡ true
    → any (text_eq u) seen ≡ any (text_eq t) seen
any-like t u seen e = rw ((text_eq_iff u t).0 e)

dedupe-Fresh :
    (u : Text) (seen ts : List Text)
    → any (text_eq u) seen ≡ true
    → any (text_eq u) (dedupe seen ts) ≡ false
unfolding dedupe
dedupe-Fresh u seen [] h = refl
dedupe-Fresh u seen (t ∷ ts) h = elim (Bool-cases (any (text_eq t) seen)) [
  | inl old ↦ rw (old, dedupe) (dedupe-Fresh u seen ts h)
  | inr new ↦ elim (Bool-cases (text_eq u t)) [
    | inl same ↦ absurd (ground (arith, any-like t u seen same))
    | inr other ↦
        rw (new, dedupe) (ground (arith, other, dedupe-Fresh u (t ∷ seen) ts (ground (arith, h))))
  ]
]

dedupe-Distinct : (seen ts : List Text) → Distinct (dedupe seen ts)
unfolding dedupe
dedupe-Distinct seen [] = tt
dedupe-Distinct seen (t ∷ ts) = elim (Bool-cases (any (text_eq t) seen)) [
  | inl old ↦ rw (old, dedupe) (dedupe-Distinct seen ts)
  | inr new ↦
      rw (new, dedupe)
        (
          dedupe-Fresh t (t ∷ seen) ts (ground (arith, text_eq-same t)),
          dedupe-Distinct (t ∷ seen) ts,
        )
]

dedupe-Fits : (seen ts : List Text) → All Fits ts → All Fits (dedupe seen ts)
unfolding dedupe
dedupe-Fits seen [] f = tt
dedupe-Fits seen (t ∷ ts) f = elim (Bool-cases (any (text_eq t) seen)) [
  | inl old ↦ rw (old, dedupe) (dedupe-Fits seen ts f.1)
  | inr new ↦ rw (new, dedupe) (f.0, dedupe-Fits (t ∷ seen) ts f.1)
]

take-positive : (n : ℕ) (t : Text) → 1 ≤ length t → 1 ≤ length (take (suc n) t)
take-positive n [] h = h
take-positive n (c ∷ cs) h = omega arith

cleaned-Fits : (lower : Text → Text) (raw : List Text) → All Fits (cleaned lower raw)
unfolding cleaned normalise_tag
cleaned-Fits lower [] = tt
cleaned-Fits lower (r ∷ rs) = elim (Bool-cases (length (lower (trim r)) == 0)) [
  | inl empty ↦ rw empty (cleaned-Fits lower rs)
  | inr words ↦ rw words (
    (take-positive 63 (lower (trim r)) (ground arith), length-take-le 64 (lower (trim r))),
    cleaned-Fits lower rs,
  )
]

All-append : (xs ys : List Text) → All Fits xs → All Fits ys → All Fits (xs ++ ys)
All-append [] ys f g = g
All-append (x ∷ xs) ys f g = (f.0, All-append xs ys f.1 g)

any-keep :
    (p : Text → Bool) (u : Text) (ts : List Text)
    → any (text_eq u) ts ≡ false
    → any (text_eq u) (keep p ts) ≡ false
any-keep p u [] h = refl
any-keep p u (t ∷ ts) h = ground (arith, any-keep p u ts)

keep-IsTidy : (p : Text → Bool) (ts : List Text) → IsTidy ts → IsTidy (keep p ts)
keep-IsTidy p [] tidy = tidy
keep-IsTidy p (t ∷ ts) ((new, d), (f, fs)) = elim (Bool-cases (p t)) [
  | inr out ↦ rw out (keep-IsTidy p ts (d, fs))
  | inl in_it ↦
      let (d', fs') = keep-IsTidy p ts (d, fs) in rw in_it ((any-keep p t ts new, d'), (f, fs'))
]

any-take :
    (n : ℕ) (u : Text) (ts : List Text)
    → any (text_eq u) ts ≡ false
    → any (text_eq u) (take n ts) ≡ false
any-take zero u ts h = refl
any-take (suc n) u [] h = refl
any-take (suc n) u (t ∷ ts) h = ground (arith, any-take n u ts)

take-IsTidy : (n : ℕ) (ts : List Text) → IsTidy ts → IsTidy (take n ts)
take-IsTidy zero ts tidy = (tt, tt)
take-IsTidy (suc n) [] tidy = (tt, tt)
take-IsTidy (suc n) (t ∷ ts) ((new, d), (f, fs)) =
    let (d', fs') = take-IsTidy n ts (d, fs) in ((any-take n t ts new, d'), (f, fs'))

module _ (lower : Text → Text) where
  fresh-IsTidy : (ts : List Text) → All Fits ts → IsTidy (dedupe [] ts)
  fresh-IsTidy ts f = (dedupe-Distinct [] ts, dedupe-Fits [] ts f)

  with_added-IsTidy :
      (add : Option (List Text)) (ts : List Text) → IsTidy ts → IsTidy (with_added lower add ts)
  unfolding with_added
  with_added-IsTidy add ts tidy = elim (Bool-cases (is_used add)) [
    | inr unused ↦ rw unused tidy
    | inl used ↦ rw used (
        fresh-IsTidy (ts ++ cleaned lower (or_default add [])) (
          All-append ts (cleaned lower (or_default add [])) tidy.1
            (cleaned-Fits lower (or_default add []))))
  ]

  with_removed-IsTidy :
      (remove : Option (List Text)) (ts : List Text)
      → IsTidy ts
      → IsTidy (with_removed lower remove ts)
  unfolding with_removed
  with_removed-IsTidy remove ts tidy = elim (Bool-cases (is_used remove)) [
    | inr unused ↦ rw unused tidy
    | inl used ↦ rw used (keep-IsTidy _ ts tidy)
  ]

  next_tags-IsTidy :
      (input : UpdateLeadTagsInput) (ts : List Text) → IsTidy ts → IsTidy (next_tags lower input ts)
  unfolding next_tags
  next_tags-IsTidy input ts tidy = chosen input.tags
    where
      chosen :
          (tags : Option (List Text))
          → IsTidy (elim tags [
            | some tags ↦ dedupe [] (cleaned lower tags)
            | none ↦ with_removed lower input.remove (with_added lower input.add ts)
          ])
      chosen (some tags) = fresh-IsTidy (cleaned lower tags) (cleaned-Fits lower tags)
      chosen none =
          with_removed-IsTidy input.remove (with_added lower input.add ts)
            (with_added-IsTidy input.add ts tidy)

  -- Whatever the update of a lead's tags is, if it returns and the lead's tags have 1 to 64 code
  -- units each and none stands twice, so do the new ones, and they are at most 32.
  pub update_lead_tags-IsTidy :
      (input : UpdateLeadTagsInput) (l : Lead) (ts : List Text)
      → IsTidy l.tags
      → update_lead_tags lower input (some l) ≡ ok ts
      → IsTidy ts × (length ts ≤ max_tags_per_lead)
  unfolding update_lead_tags
  update_lead_tags-IsTidy input l ts tidy e = rw (sym (cut e)) (
    take-IsTidy max_tags_per_lead (next_tags lower input l.tags)
        (next_tags-IsTidy input l.tags tidy),
    length-take-le max_tags_per_lead (next_tags lower input l.tags),
  )
    where
      cut :
          update_lead_tags lower input (some l) ≡ ok ts
          → take max_tags_per_lead (next_tags lower input l.tags) ≡ ts
      cut e = ground arith
