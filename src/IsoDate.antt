-- ===== src/IsoDate.antt =====
-- `Date.prototype.toISOString` for a date from 1970 to 9999, given as milliseconds.
use workshop_service.Base.{
  ℕ, ◌+◌, ◌-◌, ◌*◌, ◌/◌, ◌%◌, [], ◌∷◌, ◌++◌, ltb, leb, if◌then◌else◌, ◌≡◌, refl,
}
use workshop_service.Text.{Text, text}

two_digits : ℕ → Text
two_digits n = (b'0' + n / 10 % 10) ∷ (b'0' + n % 10) ∷ []

three_digits : ℕ → Text
unfolding two_digits
three_digits n = (b'0' + n / 100 % 10) ∷ two_digits (n % 100)

four_digits : ℕ → Text
unfolding two_digits
four_digits n = two_digits (n / 100) ++ two_digits (n % 100)

-- The calendar date of a day, in eras of 400 years that begin in March.
calendar_date : ℕ → Text
unfolding two_digits four_digits
calendar_date days =
    let z = days + 719468 in
    let era = z / 146097 in
    let doe = z % 146097 in
    let yoe = (doe + doe / 36524 - doe / 1460 - doe / 146096) / 365 in
    let doy = doe + yoe / 100 - (365 * yoe + yoe / 4) in
    let mp = (5 * doy + 2) / 153 in
    let day : ℕ = doy + 1 - (153 * mp + 2) / 5 in
    let month : ℕ = if ltb mp 10 then mp + 3 else mp - 9 in
    let year : ℕ = yoe + era * 400 + (if leb month 2 then 1 else 0) in
    four_digits year ++ b'-' ∷ (two_digits month ++ b'-' ∷ two_digits day)

unfoldable pub to_iso_string : ℕ → Text
unfolding calendar_date three_digits
to_iso_string ms =
    let day = ms % 86400000 in
    calendar_date (ms / 86400000)
    ++ (b'T'
        ∷ (two_digits (day / 3600000)
            ++ (b':'
                ∷ (two_digits (day / 60000 % 60)
                    ++ (b':'
                        ∷ (two_digits (day / 1000 % 60)
                            ++ (b'.' ∷ (three_digits (day % 1000) ++ (b'Z' ∷ [])))))))))

epoch : to_iso_string 0 ≡ text "1970-01-01T00:00:00.000Z"
unfolding to_iso_string text
epoch = refl

leap_day : to_iso_string 1709210096789 ≡ text "2024-02-29T12:34:56.789Z"
unfolding to_iso_string text
leap_day = refl
