-- ===== src/Validation/Times.antt =====
-- Opening times that the rules accept (src/validation/channelRules.ts, checkServiceHour).
use ptv_mcp.Base.{
  ℕ, ◌+◌, ◌-◌, ◌*◌, ◌≤◌, ◌<◌, ◌≡◌, ◌≢◌, ◌↔◌, inl, inr, true, false, not, ◌&&◌, [], ◌∷◌, arith, Text,
  text, text_eq, text_eq_iff, ltb, ltb→lt, lt→ltb, Bool-cases,
}
use ptv_mcp.Validation.Domain.{OpeningTime, HourType, days_of_the_week, exceptional, over_midnight}
use ptv_mcp.Validation.Errors.{FieldPath, error_if}
use ptv_mcp.Validation.Patterns.{is_time, text_lt}
use ptv_mcp.Validation.ContactRules.{hour_type_eq, check_opening_time}
use ptv_mcp.Validation.NoErrors.{error_if-nil}

-- `HH:mm` in minutes after midnight.
abbrev pub minutes : Text → ℕ
minutes (a ∷ b ∷ c ∷ d ∷ e ∷ []) = (10 * (a - 48) + (b - 48)) * 60 + 10 * (d - 48) + (e - 48)
minutes _ = 0

-- The five units of a time.
pub record Clock (s : Text) : Type 0 where
  pub a : ℕ
  pub b : ℕ
  pub d : ℕ
  pub e : ℕ
  pub units : s ≡ a ∷ b ∷ 58 ∷ d ∷ e ∷ []
  pub tens : (48 ≤ a) × (a ≤ 50)
  pub ones : (48 ≤ b) × (b ≤ 57)
  pub minute_tens : (48 ≤ d) × (d ≤ 53)
  pub minute_ones : (48 ≤ e) × (e ≤ 57)

read_time : (s : Text) → is_time s ≡ true → Clock s
unfolding is_time
read_time [] h = absurd (cc h)
read_time (a ∷ []) h = absurd (cc h)
read_time (a ∷ b ∷ []) h = absurd (cc h)
read_time (a ∷ b ∷ c ∷ []) h = absurd (cc h)
read_time (a ∷ b ∷ c ∷ d ∷ []) h = absurd (cc h)
read_time (a ∷ b ∷ c ∷ d ∷ e ∷ []) h =
    let colon : c ≡ 58 = ground arith in
    record {
      a = a;
      b = b;
      d = d;
      e = e;
      units = rw colon;
      tens = ground arith;
      ones = ground arith;
      minute_tens = ground arith;
      minute_ones = ground arith;
    }
read_time (a ∷ b ∷ c ∷ d ∷ e ∷ f ∷ s) h = absurd (cc h)

units_lt :
    (a b d e a' b' d' e' : ℕ)
    → 48 ≤ a
    → 48 ≤ b
    → b ≤ 57
    → 48 ≤ d
    → d ≤ 53
    → 48 ≤ e
    → e ≤ 57
    → 48 ≤ a'
    → 48 ≤ b'
    → b' ≤ 57
    → 48 ≤ d'
    → d' ≤ 53
    → 48 ≤ e'
    → e' ≤ 57
    → text_lt (a ∷ b ∷ 58 ∷ d ∷ e ∷ []) (a' ∷ b' ∷ 58 ∷ d' ∷ e' ∷ [])
      ≡ ltb (minutes (a ∷ b ∷ 58 ∷ d ∷ e ∷ [])) (minutes (a' ∷ b' ∷ 58 ∷ d' ∷ e' ∷ []))
unfolding text_lt
units_lt a b d e a' b' d' e' h1 h2 h3 h4 h5 h6 h7 k1 k2 k3 k4 k5 k6 k7 = ground arith

-- As strings and as times of day, `HH:mm` compare alike.
pub text_lt-minutes :
    (s t : Text) → is_time s ≡ true → is_time t ≡ true → text_lt s t ≡ ltb (minutes s) (minutes t)
text_lt-minutes s t h k =
    let c = read_time s h in
    let d = read_time t k in
    rw (c.units, d.units)
      (units_lt c.a c.b c.d c.e d.a d.b d.d d.e (c.tens.0) (c.ones.0) (c.ones.1) (c.minute_tens.0)
        (c.minute_tens.1) (c.minute_ones.0) (c.minute_ones.1) (d.tens.0) (d.ones.0) (d.ones.1)
        (d.minute_tens.0) (d.minute_tens.1) (d.minute_ones.0) (d.minute_ones.1))

over_midnight_iff :
    (type : HourType) → (hour_type_eq type over_midnight ≡ true) ↔ (type ≡ over_midnight)
over_midnight_iff days_of_the_week = ground arith
over_midnight_iff exceptional = ground arith
over_midnight_iff over_midnight = ground arith

-- Two times of day, the second later unless the hour runs over midnight or to its end.
pub record IsSpan (type : HourType) (time : OpeningTime) : Type 0 where
  pub starts : is_time time.from ≡ true
  pub ends : is_time time.to ≡ true
  pub later : type ≢ over_midnight → time.to ≢ text "00:00" → minutes time.from < minutes time.to

-- An opening time is accepted exactly when both ends are times of day, HH:mm, and, unless the hour
-- runs over midnight or the time ends at 00:00, the end is later in minutes than the start.
pub check_opening_time-IsSpan :
    (type : HourType) (time : OpeningTime) (path : FieldPath)
    → (check_opening_time type time path ≡ []) ↔ IsSpan type time
unfolding check_opening_time
check_opening_time-IsSpan type time path = elim (Bool-cases (is_time time.from)) [
  | inr bad ↦ rw bad ((λ h. absurd (cc h)), (λ s. absurd (cc (s.starts, bad))))
  | inl from ↦ elim (Bool-cases (is_time time.to)) [
    | inr bad ↦ rw (from, bad) ((λ h. absurd (cc h)), (λ s. absurd (cc (s.ends, bad))))
    | inl to ↦ rw (from, to, text_lt-minutes time.from time.to from to) (order from to)
  ]
]
  where
    earlier :
        type ≢ over_midnight
        → time.to ≢ text "00:00"
        → (not (hour_type_eq type over_midnight)
            && not (ltb (minutes time.from) (minutes time.to))
            && not (text_eq time.to (text "00:00")))
          ≡ false
        → minutes time.from < minutes time.to
    earlier day ends h =
        ltb→lt (minutes time.from) (minutes time.to)
          (ground (arith, over_midnight_iff type, text_eq_iff time.to (text "00:00")))

    silent :
        (type ≢ over_midnight → time.to ≢ text "00:00" → minutes time.from < minutes time.to)
        → (not (hour_type_eq type over_midnight)
            && not (ltb (minutes time.from) (minutes time.to))
            && not (text_eq time.to (text "00:00")))
          ≡ false
    silent later = elim (Bool-cases (hour_type_eq type over_midnight)) [
      | inl night ↦ rw night
      | inr day ↦ elim (Bool-cases (text_eq time.to (text "00:00"))) [
        | inl end_ ↦ rw (day, end_) (ground arith)
        | inr other ↦ rw (
          day,
          lt→ltb _ _ (
              later (λ e. absurd (cc (day, (over_midnight_iff type).1 e)))
                (λ e. absurd (cc (other, (text_eq_iff time.to (text "00:00")).1 e)))),
        )
      ]
    ]

    order :
        is_time time.from ≡ true
        → is_time time.to ≡ true
        → (error_if
              (not (hour_type_eq type over_midnight)
                && not (ltb (minutes time.from) (minutes time.to))
                && not (text_eq time.to (text "00:00")))
              path
            ≡ [])
          ↔ IsSpan type time
    order from to = (
      (λ h. record {
        starts = from;
        ends = to;
        later = λ day ends. earlier day ends ((error_if-nil _ _).0 h);
      }),
      (λ s. (error_if-nil _ _).1 (silent s.later)),
    )
