-- ===== src/Ip/LabelValue.antt =====
-- pkg/ip/utils.go, `CIDRToLabelValue`.
use spiderpool.Prelude.{ℕ, zero, suc, [], ◌∷◌, Text, ◌==◌, if◌then◌else◌}
use spiderpool.Net.Textual.{NetText}
use spiderpool.Ip.Result.{Result, ok, ◌>>◌}
use spiderpool.Ip.Format.{is_cidr}

-- `strings.Replace(s, old, new, k)` for texts of one character
unfoldable pub replace_first : ℕ → ℕ → ℕ → Text → Text
replace_first zero old new s = s
replace_first (suc k) old new [] = []
replace_first (suc k) old new (c ∷ s) =
    if c == old then new ∷ replace_first k old new s else c ∷ replace_first (suc k) old new s

abbrev pub label_text : Text → Text
unfolding replace_first
label_text s = replace_first 1 b'/' b'-' (replace_first 7 b':' b'-' (replace_first 3 b'.' b'-' s))

module _ (n : NetText) where
  unfoldable pub cidr_to_label_value : ℕ → Text → Result Text
  unfolding is_cidr replace_first
  cidr_to_label_value version subnet = do is_cidr n version subnet; ok (label_text subnet)
