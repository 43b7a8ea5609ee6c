-- ===== src/Database/Status/Laws.antt =====
-- The status words: the normal form is reached in one step.
use be_miawai.Base.{◌≡◌, ap, arith, Text, one_of, text_eq, is_blank, ◌∙◌}
use be_miawai.Base.Strings.{
  trim_space, folded, folded-folded, trim_space-folded, is_blank-to_lower, lower, is_space,
  trim_left, trim_right, snoc_trim,
}
use be_miawai.Database.Status.{classify, normalize_subscription_status}

is_blank-trim_space-folded : (s : Text) → is_blank (trim_space (folded s)) ≡ is_blank (trim_space s)
unfolding folded
is_blank-trim_space-folded s = ap is_blank (trim_space-folded s) ∙ is_blank-to_lower (trim_space s)

classify-classify :
    (s r : Text)
    → folded s ≡ s
    → is_blank (trim_space s) ≡ is_blank (trim_space r)
    → classify (folded (classify s r)) (classify s r) ≡ classify s r
unfolding classify one_of text_eq folded trim_space lower is_space trim_left trim_right snoc_trim
classify-classify s r e b = ground arith

-- Normalizing a subscription status twice is normalizing it once.
pub normalize-normalize :
    (s : Text)
    → normalize_subscription_status (normalize_subscription_status s)
      ≡ normalize_subscription_status s
unfolding normalize_subscription_status
normalize-normalize s =
    classify-classify (folded s) s (folded-folded s) (is_blank-trim_space-folded s)
