-- ===== src/Schedule/Range.antt =====
-- What an expression allows lies Within the ranges of its fields.
use oneiro_ostis.Prelude.{
  ℕ, zero, suc, ◌+◌, ◌-◌, ◌≤◌, String, ◌≡◌, inl, inr, >>=-eq-ok, require, Bool, true, false, not,
  ◌||◌, Option, none, some, List, [], ◌∷◌, ◌++◌, Result, ok, err, ◌>>=◌, >>=-eq-ok, ltb, ◌==◌,
  string_comparable, nat_comparable, All, arith, Bool-cases,
}
use oneiro_ostis.Prelude.Text.{strip, split, is_empty}
use oneiro_ostis.Schedule.Text.{Unicode, partition, split_on, strip_plus, is_digits, int}
use oneiro_ostis.Schedule.Cron.{
  ScheduleError, not_a_number, empty_field, empty_expression, FieldRange, Field, Cron, range_from,
  range, in_range, read_number, number, step_of, span, part_bounds, bounds_of, item_values,
  items_values, field, named_field, five_fields, parse, shorthand, minutes, hours, days, months,
  weekdays,
}

-- Every value lies between the two.
abbrev pub Between : ℕ → ℕ → List ℕ → Type 0
Between low high vs = All (λ v. (low ≤ v) × (v ≤ high)) vs

-- The values of a field lie Within its range.
abbrev pub Within : FieldRange → Field → Type 0
Within r f = Between r.low r.high f.values

abbrev pub IsInRange : Cron → Type 0
IsInRange c =
    Within minutes c.minute
    × Within hours c.hour
    × Within days c.day
    × Within months c.month
    × Within weekdays c.weekday

Between-append :
    (low high : ℕ) (vs ws : List ℕ)
    → Between low high vs
    → Between low high ws
    → Between low high (vs ++ ws)
Between-append low high [] ws h k = k
Between-append low high (v ∷ vs) ws (a, h) k = (a, Between-append low high vs ws h k)

range_from-Between :
    (low high fuel start end step : ℕ)
    → low ≤ start
    → end ≤ high
    → Between low high (range_from fuel start end step)
unfolding range_from
range_from-Between low high zero start end step h k = tt
range_from-Between low high (suc fuel) start end step h k = elim (Bool-cases (ltb end start)) [
  | inl e ↦ rw e tt
  | inr e ↦
      rw e (
        (h, ground arith),
        range_from-Between low high fuel (start + step) end step (omega arith) k,
      )
]

in_range-Between :
    (r : FieldRange) (n : ℕ) {v : ℕ} → in_range r n ≡ ok v → (r.low ≤ v) × (v ≤ r.high)
unfolding in_range
in_range-Between r n h = ground arith

read_number-Between :
    (r : FieldRange) (o : Option ℕ) {v : ℕ} → read_number r o ≡ ok v → (r.low ≤ v) × (v ≤ r.high)
unfolding read_number
read_number-Between r none h = ground arith
read_number-Between r (some n) h = in_range-Between r n h

span-ends : (start end : ℕ) {b : ℕ × ℕ} → span start end ≡ ok b → (start ≡ b.0) × (end ≡ b.1)
unfolding span
span-ends start end {b = (a, d)} h = ground arith

pair-ends :
    (n : ℕ) {b : ℕ × ℕ}
    → ◌≡◌ {A = Result ScheduleError (ℕ × ℕ)} (ok (n, n)) (ok b)
    → (n ≡ b.0) × (n ≡ b.1)
pair-ends n {b = (a, d)} h = ground arith

-- The values that a call returned are the ones it computed.
returned :
    (low high : ℕ) {vs ws : List ℕ}
    → ◌≡◌ {A = Result ScheduleError (List ℕ)} (ok ws) (ok vs)
    → Between low high ws
    → Between low high vs
returned low high {vs} {ws} h b = let same : vs ≡ ws = ground arith in rw same b

named_field-ok :
    (i : ℕ) (x : Result ScheduleError Field) {f : Field} → named_field i x ≡ ok f → x ≡ ok f
unfolding named_field
named_field-ok i (ok f) h = h
named_field-ok i (err e) h = ground arith

module _ (u : Unicode) where
  number-Between :
      (r : FieldRange) (text : String) {v : ℕ} → number u r text ≡ ok v → (r.low ≤ v) × (v ≤ r.high)
  unfolding number
  number-Between r text h =
      let (done, e, k) =
        >>=-eq-ok (require (is_digits u (strip_plus (strip text))) not_a_number)
          (λ _. read_number r (int u (strip text))) h in
      read_number-Between r (int u (strip text)) k

  part_bounds-Between :
      (r : FieldRange) (p : Bool × String × String) (body : String) {b : ℕ × ℕ}
      → part_bounds u r p body ≡ ok b
      → (r.low ≤ b.0) × (b.1 ≤ r.high)
  unfolding part_bounds
  part_bounds-Between r (true, first, last) body {b} h =
      let (start, e, k) =
        >>=-eq-ok (number u r first) (λ start. number u r last >>= λ end. span start end) h in
      let (end, f, m) = >>=-eq-ok (number u r last) (λ end. span start end) k in
      let (low, _) = number-Between r first e in
      let (_, high) = number-Between r last f in
      let (same, same') = span-ends start end m in (omega arith, omega arith)
  part_bounds-Between r (false, first, last) body {b} h =
      let (n, e, k) = >>=-eq-ok (number u r body) (λ n. ok (n, n)) h in
      let (low, high) = number-Between r body e in
      let (same, same') = pair-ends n k in (omega arith, omega arith)

  bounds_of-Between :
      (r : FieldRange) (body : String) {b : ℕ × ℕ}
      → bounds_of u r body ≡ ok b
      → (r.low ≤ b.0) × (b.1 ≤ r.high)
  unfolding bounds_of
  bounds_of-Between r body {b = (a, d)} h = elim (Bool-cases (is_empty body || body == "*")) [
    | inl e ↦ ground arith
    | inr e ↦ part_bounds-Between r (partition "-" body) body (rw e at h)
  ]

  item-Between :
      (r : FieldRange) (item : String) {vs : List ℕ}
      → item_values u r item ≡ ok vs
      → Between r.low r.high vs
  unfolding item_values range
  item-Between r item {vs} h =
      let (slash, body, raw_step) = partition "/" (strip item) in
      let (step, _, k) =
        >>=-eq-ok (step_of u slash raw_step)
          (λ step. bounds_of u r (strip body) >>= λ (start, end). ok (range start end step)) h in
      let ((start, end), e, m) =
        >>=-eq-ok (bounds_of u r (strip body)) (λ (start, end). ok (range start end step)) k in
      let (low, high) = bounds_of-Between r (strip body) e in
      returned r.low r.high m
        (range_from-Between r.low r.high (suc end - start) start end step low high)

  items-Between :
      (r : FieldRange) (items : List String) {vs : List ℕ}
      → items_values u r items ≡ ok vs
      → Between r.low r.high vs
  unfolding items_values
  items-Between r [] h = returned r.low r.high h tt
  items-Between r (item ∷ items) {vs} h =
      let (ws, e, k) =
        >>=-eq-ok (item_values u r item) (λ ws. items_values u r items >>= λ vs. ok (ws ++ vs)) h in
      let (xs, f, m) = >>=-eq-ok (items_values u r items) (λ vs. ok (ws ++ vs)) k in
      returned r.low r.high m
        (Between-append r.low r.high ws xs (item-Between r item e) (items-Between r items f))

  field-Within : (r : FieldRange) (text : String) {f : Field} → field u r text ≡ ok f → Within r f
  unfolding field
  field-Within r text {f} h =
      let raw = strip text in
      let result : List ℕ → Field = λ vs. record { values = vs; opened = raw == "*" } in
      let (done, _, k) =
        >>=-eq-ok (require (not (is_empty raw)) empty_field)
          (λ _. items_values u r (split_on "," raw) >>= λ vs. ok (result vs)) h in
      let (vs, e, m) = >>=-eq-ok (items_values u r (split_on "," raw)) (λ vs. ok (result vs)) k in
      let same : f ≡ result vs = ground arith in rw same (items-Between r (split_on "," raw) e)

  named-Within :
      (i : ℕ) (r : FieldRange) (text : String) {f : Field}
      → named_field i (field u r text) ≡ ok f
      → Within r f
  named-Within i r text h = field-Within r text (named_field-ok i (field u r text) h)

  five_fields-IsInRange :
      (spelled : String) (parts : List String) {c : Cron}
      → five_fields u spelled parts ≡ ok c
      → IsInRange c
  unfolding five_fields
  five_fields-IsInRange spelled (p ∷ q ∷ r ∷ s ∷ t ∷ []) {c} h =
      let built : Field → Field → Field → Field → Field → Cron = λ minute hour day month weekday.
        record {
          text = spelled;
          minute = minute;
          hour = hour;
          day = day;
          month = month;
          weekday = weekday;
        } in
      let (minute, e1, h1) =
        >>=-eq-ok (named_field 0 (field u minutes p))
          (λ minute. named_field 1 (field u hours q) >>= λ hour.
            named_field 2 (field u days r) >>= λ day. named_field 3 (field u months s) >>= λ month.
            named_field 4 (field u weekdays t) >>= λ weekday.
            ok (built minute hour day month weekday))
          h in
      let (hour, e2, h2) =
        >>=-eq-ok (named_field 1 (field u hours q))
          (λ hour. named_field 2 (field u days r) >>= λ day.
            named_field 3 (field u months s) >>= λ month.
            named_field 4 (field u weekdays t) >>= λ weekday.
            ok (built minute hour day month weekday))
          h1 in
      let (day, e3, h3) =
        >>=-eq-ok (named_field 2 (field u days r))
          (λ day. named_field 3 (field u months s) >>= λ month.
            named_field 4 (field u weekdays t) >>= λ weekday.
            ok (built minute hour day month weekday))
          h2 in
      let (month, e4, h4) =
        >>=-eq-ok (named_field 3 (field u months s))
          (λ month. named_field 4 (field u weekdays t) >>= λ weekday.
            ok (built minute hour day month weekday))
          h3 in
      let (weekday, e5, h5) =
        >>=-eq-ok (named_field 4 (field u weekdays t))
          (λ weekday. ok (built minute hour day month weekday)) h4 in
      let same : c ≡ built minute hour day month weekday = ground arith in
      rw same (
        named-Within 0 minutes p e1,
        named-Within 1 hours q e2,
        named-Within 2 days r e3,
        named-Within 3 months s e4,
        named-Within 4 weekdays t e5,
      )
  five_fields-IsInRange spelled [] h = ground arith
  five_fields-IsInRange spelled (p ∷ []) h = ground arith
  five_fields-IsInRange spelled (p ∷ q ∷ []) h = ground arith
  five_fields-IsInRange spelled (p ∷ q ∷ r ∷ []) h = ground arith
  five_fields-IsInRange spelled (p ∷ q ∷ r ∷ s ∷ []) h = ground arith
  five_fields-IsInRange spelled (p ∷ q ∷ r ∷ s ∷ t ∷ x ∷ xs) h = ground arith

  -- An expression that `Cron.parse` reads allows in each field only values of that field's range:
  -- minutes 0 to 59, hours 0 to 23, days 1 to 31, months 1 to 12 and weekdays 0 to 7.
  pub parse-IsInRange : (expression : String) {c : Cron} → parse u expression ≡ ok c → IsInRange c
  unfolding parse
  parse-IsInRange expression h =
      let raw = strip expression in
      let spelled = shorthand (u.lower raw) raw in
      let (done, _, k) =
        >>=-eq-ok (require (not (is_empty raw)) empty_expression)
          (λ _. five_fields u spelled (split spelled)) h in
      five_fields-IsInRange spelled (split spelled) k
