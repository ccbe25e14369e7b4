-- ===== src/Examples.antt =====
-- The theorems on the WhatsApp rules and on its client, applied at concrete inputs.
use automatebro.Prelude.{length, ◌≤◌, ◌≡◌, refl, none, some, [], ◌∷◌}
use automatebro.Fixtures.{lead, hi, same_case}
use automatebro.Text.{trim, starts_with}
use automatebro.Leads.Tags.{max_tags_per_lead, UpdateLeadTagsInput, normalise_tag, update_lead_tags}
use automatebro.Leads.Tags.Laws.{IsTidy, update_lead_tags-IsTidy}
use automatebro.Leads.Capture.{canonical, normalize_phone}
use automatebro.Leads.Capture.Laws.{IsCanonical, normalize_phone-IsCanonical}
use automatebro.Whatsapp.StopKeywords.{codes}

abbrev add_hi : UpdateLeadTagsInput
add_hi = record { tags = none; add = some (hi ∷ hi ∷ []); remove = none }

update_lead_tags-IsTidy_example : IsTidy (hi ∷ []) × (length (hi ∷ []) ≤ max_tags_per_lead)
unfolding update_lead_tags normalise_tag trim
update_lead_tags-IsTidy_example =
    update_lead_tags-IsTidy same_case add_hi lead (hi ∷ []) (tt, tt) refl

normalize_phone-IsCanonical_example :
    IsCanonical (codes "+919876543210")
    × (normalize_phone (codes "+919876543210") ≡ some (codes "+919876543210"))
unfolding normalize_phone canonical trim starts_with
normalize_phone-IsCanonical_example =
    normalize_phone-IsCanonical (codes " +91 98765-43210") (codes "+919876543210") refl
