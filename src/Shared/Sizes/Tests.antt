-- ===== src/Shared/Sizes/Tests.antt =====
-- Sizes that are read.
use kenojs.Prelude.{◌≡◌, refl, none, some}
use kenojs.Prelude.Text.{codes, trim, trim_start, trim_end}
use kenojs.Shared.Sizes.{written, split_digits, unit_size, parse_size}

ten_megabytes : parse_size (written (codes " 10Mb ")) 1 ≡ some 10485760
unfolding parse_size split_digits unit_size trim trim_start trim_end
ten_megabytes = refl

without_amount : parse_size (written (codes "kb")) 1 ≡ none
unfolding parse_size split_digits unit_size trim trim_start trim_end
without_amount = refl

with_fraction : parse_size (written (codes "1.5kb")) 1 ≡ none
unfolding parse_size split_digits unit_size trim trim_start trim_end
with_fraction = refl
