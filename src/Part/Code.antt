-- ===== src/Part/Code.antt =====
-- A part code that `PartCode.create` has given.
use workshop_service.Base.{◌≡◌, arith, ap, ◌∙◌}
use workshop_service.Text.{Text, trim, to_upper_case}
use workshop_service.Text.Edges.{to_upper_case-trim_again}
use workshop_service.Errors.{ok}
use workshop_service.Part.{create_code, is_valid_code}

-- The code of a text is the text in its normal form, trimmed and in upper case.
pub create_code_normal : (v c : Text) → create_code v ≡ ok c → c ≡ to_upper_case (trim v)
unfolding create_code
create_code_normal v c h = ground arith

normal_again :
    (v : Text)
    → create_code v ≡ ok (to_upper_case (trim v))
    → create_code (to_upper_case (trim v)) ≡ ok (to_upper_case (trim v))
unfolding create_code is_valid_code
normal_again v h = ground (arith, to_upper_case-trim_again v)

-- A code is accepted again, as it is.
pub create_code_again : (v c : Text) → create_code v ≡ ok c → create_code c ≡ ok c
create_code_again v c h =
    rw (create_code_normal v c h) (normal_again v (h ∙ ap ok (create_code_normal v c h)))
