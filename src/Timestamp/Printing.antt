-- ===== src/Timestamp/Printing.antt =====
-- src/Timestamp.cc: the text of a time is whole, and tells times apart.
use muduo_learning.Prelude.{
  ℕ, ◌+◌, ◌*◌, ◌^◌, ◌≤◌, ◌<◌, ◌≡◌, refl, ap, ◌∙◌, ◌∷◌, [], ◌++◌, length, take_all, length-append, ℤ,
  pos, ◌+ℤ◌, Option, some, arith,
}
use muduo_learning.Text.{Text, IsText, IsText-append, zeroed, c_str-print_bounded}
use muduo_learning.Text.Decimal.{
  decimal, decimal-IsText, length-decimal_four, zero_filled, zero_filled_two, space_filled_exact,
}
use muduo_learning.Text.Reading.{
  numbers, scan, scan-decimal, scan-zero_filled, scan-zero_filled_all, scan-zero_filled_field,
  scan-separator,
}
use muduo_learning.Timestamp.{Timestamp, Tm, format, text_of, to_string}

-- A local time between the years 1000 and 9999, with its members in the ranges of `struct tm`.
pub record IsDate (year mon mday hour min sec : ℕ) (t : Tm) : Type 0 where
  pub year_is : t.tm_year +ℤ pos 1900 ≡ pos year
  pub mon_is : t.tm_mon +ℤ pos 1 ≡ pos mon
  pub mday_is : t.tm_mday ≡ pos mday
  pub hour_is : t.tm_hour ≡ pos hour
  pub min_is : t.tm_min ≡ pos min
  pub sec_is : t.tm_sec ≡ pos sec
  pub four_digits : (1000 ≤ year) × (year < 10000)
  pub two_digits : (mon < 100) × (mday < 100) × (hour < 100) × (min < 100) × (sec < 100)

-- What stands behind the year.
behind_year : ℕ → ℕ → ℕ → ℕ → ℕ → Text
behind_year mon mday hour min sec =
    zero_filled 2 (pos mon)
    ++ (zero_filled 2 (pos mday)
        ++ (b' ' ∷ zero_filled 2 (pos hour)
            ++ (b':' ∷ zero_filled 2 (pos min) ++ (b':' ∷ zero_filled 2 (pos sec)))))

module _ {year mon mday hour min sec : ℕ} {t : Tm} (d : IsDate year mon mday hour min sec t) where
  format-fields : format t ≡ decimal year ++ behind_year mon mday hour min sec
  unfolding format behind_year
  format-fields = ground (arith, space_filled_exact year, d)

  scan-fields :
      numbers (decimal year ++ behind_year mon mday hour min sec)
      ≡ (year * 10000 + mon * 100 + mday) ∷ hour ∷ min ∷ sec ∷ []
  unfolding behind_year
  scan-fields =
      let year_small : year < 10 ^ 10 = omega (arith, d.four_digits.1) in
      let (h1, h2, h3, h4, h5) = d.two_digits in
      let date = year * 10000 + mon * 100 + mday in
      let seconds = zero_filled 2 (pos sec) in
      let minutes = zero_filled 2 (pos min) ++ (b':' ∷ seconds) in
      let clock = zero_filled 2 (pos hour) ++ (b':' ∷ minutes) in
      scan-decimal year _ year_small
      ∙ scan-zero_filled mon year _ h1
      ∙ scan-zero_filled mday (year * 100 + mon) (b' ' ∷ clock) h2
      ∙ ap (scan (b' ' ∷ clock)) (omega arith)
      ∙ scan-separator b' ' date clock refl
      ∙ ap (λ r. date ∷ r) (scan-zero_filled_field hour b':' minutes h3 refl)
      ∙ ap (λ r. date ∷ hour ∷ r) (scan-zero_filled_field min b':' seconds h4 refl)
      ∙ ap (λ r. date ∷ hour ∷ min ∷ r) (scan-zero_filled_all sec h5)

  behind_year-IsText :
      IsText (behind_year mon mday hour min sec) × (length (behind_year mon mday hour min sec) ≡ 13)
  unfolding behind_year
  behind_year-IsText = ground (
    arith,
    d,
    zero_filled_two mon,
    zero_filled_two mday,
    zero_filled_two hour,
    zero_filled_two min,
    zero_filled_two sec,
  )

  format-IsText : IsText (format t) × (length (format t) ≡ 17)
  format-IsText =
      let (year_least, year_bound) = d.four_digits in
      let (is_text, long) = behind_year-IsText in
      let rest = behind_year mon mday hour min sec in
      let is_text_all = IsText-append (decimal year) rest (decimal-IsText year) is_text in
      rw format-fields (
        is_text_all,
        omega (
          arith,
          long,
          length-append (decimal year) rest,
          length-decimal_four year year_least year_bound,
        ),
      )

  -- `toString` of a time whose local time is a date between the years 1000 and 9999: it gives a
  -- text of 17 bytes, whose numbers are the date, as year, month and day in one, the hour, the
  -- minute and the second.
  pub to_string_reads :
      (localtime : ℤ → Option Tm) (at : Timestamp)
      → localtime at.micro_second_since_epoch ≡ some t
      → (text : Text) × (to_string localtime at ≡ some text)
        × (length text ≡ 17)
        × (numbers text ≡ (year * 10000 + mon * 100 + mday) ∷ hour ∷ min ∷ sec ∷ [])
  unfolding to_string
  to_string_reads localtime at h =
      let (is_text, long) = format-IsText in
      (
        format t,
        ap text_of h
            ∙ ap some (
                c_str-print_bounded 128 (format t) (zeroed 128) is_text (omega arith) (omega arith)
                ∙ take_all 127 (format t) (omega (arith, long))),
        long,
        ap numbers format-fields ∙ scan-fields,
      )
