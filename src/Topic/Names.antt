-- ===== src/Topic/Names.antt =====
-- Which names are action topics.
use rmw_robotops.Base.{
  ℕ, zero, suc, ◌+◌, ◌-◌, ◌≤◌, ◌≡◌, ◌≢◌, ◌↔◌, refl, sym, ap, ◌∙◌, Bool, true, false, some, [], ◌∷◌,
  ◌++◌, arith, length, length-append, drop, take, ltb, Bool-cases, inl, inr,
}
use rmw_robotops.Text.{Text, same_text, same_text→eq, same_text_refl}
use rmw_robotops.Topic.{
  EventTypes, ends_with, plain_event_type, detect_action_event_type, send_goal, cancel_goal,
  get_result, feedback,
}

take-append-drop : (n : ℕ) (xs : Text) → take n xs ++ drop n xs ≡ xs
take-append-drop zero xs = refl
take-append-drop (suc n) [] = refl
take-append-drop (suc n) (x ∷ xs) = ap (λ l. x ∷ l) (take-append-drop n xs)

drop_past : (pre xs : Text) (k n : ℕ) → n ≡ length pre + k → drop n (pre ++ xs) ≡ drop k xs
drop_past [] xs k n e = ap (λ m. drop m xs) (omega arith)
drop_past (x ∷ pre) xs k zero e = absurd (omega arith)
drop_past (x ∷ pre) xs k (suc n) e = drop_past pre xs k n (omega arith)

not_shorter : (m n : ℕ) → n ≤ m → ltb m n ≡ false
not_shorter m n h = ground arith

ends_with_parts :
    (str suffix : Text)
    → ends_with (some str) (some suffix) ≡ true
    → same_text (drop (length str - length suffix) str) suffix ≡ true
unfolding ends_with
ends_with_parts str suffix h = ground arith

ends_with-append : (pre suffix : Text) → ends_with (some (pre ++ suffix)) (some suffix) ≡ true
unfolding ends_with
ends_with-append pre suffix =
    let len = length-append pre suffix in
    let rest =
      drop_past pre suffix 0 (length (pre ++ suffix) - length suffix) (omega (arith, len)) in
    rw (not_shorter (length (pre ++ suffix)) (length suffix) (omega (arith, len)), rest)
      (same_text_refl suffix)

-- `ends_with` says whether some prefix completes the suffix to the text.
pub ends_with_iff :
    (str suffix : Text)
    → (ends_with (some str) (some suffix) ≡ true) ↔ ((pre : Text) × (str ≡ pre ++ suffix))
ends_with_iff str suffix = (
  (λ h.
      let n = length str - length suffix in
      (
        take n str,
        sym (take-append-drop n str)
            ∙ ap (λ l. take n str ++ l)
                (same_text→eq (drop n str) suffix (ends_with_parts str suffix h)),
      )),
  λ e. ap (λ s. ends_with (some s) (some suffix)) e.1 ∙ ends_with-append e.0 suffix,
)

-- The last byte of a text, 0 if it has none.
abbrev last : Text → ℕ
last [] = 0
last (x ∷ []) = x
last (x ∷ y ∷ ys) = last (y ∷ ys)

last-append : (pre : Text) (x : ℕ) (xs : Text) → last (pre ++ x ∷ xs) ≡ last (x ∷ xs)
last-append [] x xs = refl
last-append (y ∷ []) x xs = refl
last-append (y ∷ z ∷ pre) x xs = last-append (z ∷ pre) x xs

-- A text does not end in another last byte than it has.
ends_with_other :
    (pre : Text) (x : ℕ) (xs : Text) (y : ℕ) (ys : Text)
    → last (x ∷ xs) ≢ last (y ∷ ys)
    → ends_with (some (pre ++ x ∷ xs)) (some (y ∷ ys)) ≡ false
ends_with_other pre x xs y ys ne =
    elim (Bool-cases (ends_with (some (pre ++ x ∷ xs)) (some (y ∷ ys)))) [
      | inl hit ↦
          let (q, e) = (ends_with_iff (pre ++ x ∷ xs) (y ∷ ys)).0 hit in
          absurd (ne (sym (last-append pre x xs) ∙ ap last e ∙ last-append q y ys))
      | inr miss ↦ miss
    ]

-- A shorter suffix is looked for in the longer one alone.
ends_with_inside :
    (pre long short : Text)
    → length short ≤ length long
    → same_text (drop (length long - length short) long) short ≡ false
    → ends_with (some (pre ++ long)) (some short) ≡ false
unfolding ends_with
ends_with_inside pre long short h e =
    let len = length-append pre long in
    let rest =
      drop_past pre long (length long - length short) (length (pre ++ long) - length short)
        (omega (arith, len)) in
    rw (not_shorter (length (pre ++ long)) (length short) (omega (arith, len)), rest) e

cancel_not_send : (pre : Text) → ends_with (some (pre ++ cancel_goal)) (some send_goal) ≡ false
unfolding same_text
cancel_not_send pre = ends_with_inside pre cancel_goal send_goal (omega arith) refl

result_not_send : (pre : Text) → ends_with (some (pre ++ get_result)) (some send_goal) ≡ false
unfolding same_text
result_not_send pre = ends_with_inside pre get_result send_goal (omega arith) refl

result_not_cancel : (pre : Text) → ends_with (some (pre ++ get_result)) (some cancel_goal) ≡ false
result_not_cancel pre = ends_with_other pre _ _ _ _ (λ e. omega arith)

feedback_not_send : (pre : Text) → ends_with (some (pre ++ feedback)) (some send_goal) ≡ false
feedback_not_send pre = ends_with_other pre _ _ _ _ (λ e. omega arith)

feedback_not_cancel : (pre : Text) → ends_with (some (pre ++ feedback)) (some cancel_goal) ≡ false
feedback_not_cancel pre = ends_with_other pre _ _ _ _ (λ e. omega arith)

feedback_not_result : (pre : Text) → ends_with (some (pre ++ feedback)) (some get_result) ≡ false
feedback_not_result pre = ends_with_other pre _ _ _ _ (λ e. omega arith)

ends_with_none :
    (topic suffix : Text)
    → ((pre : Text) → topic ≢ pre ++ suffix)
    → ends_with (some topic) (some suffix) ≡ false
ends_with_none topic suffix h = elim (Bool-cases (ends_with (some topic) (some suffix))) [
  | inl hit ↦ let (pre, e) = (ends_with_iff topic suffix).0 hit in absurd (h pre e)
  | inr miss ↦ miss
]

module _ (k : EventTypes) (is_publisher is_start_event : Bool) where
  abbrev pub detected : Text → ℕ
  detected topic = detect_action_event_type k (some topic) is_publisher is_start_event

  -- Under any prefix, the four action names yield their four event types, on either side and at
  -- either end of the call.
  pub detect_action_topics :
      (pre : Text)
      → (detected (pre ++ send_goal) ≡ k.action_goal)
        × (detected (pre ++ cancel_goal) ≡ k.action_cancel)
        × (detected (pre ++ get_result) ≡ k.action_result)
        × (detected (pre ++ feedback) ≡ k.action_feedback)
  unfolding detect_action_event_type
  detect_action_topics pre = (
    rw (ends_with-append pre send_goal),
    rw (cancel_not_send pre, ends_with-append pre cancel_goal),
    rw (result_not_send pre, result_not_cancel pre, ends_with-append pre get_result),
    rw (
      feedback_not_send pre,
      feedback_not_cancel pre,
      feedback_not_result pre,
      ends_with-append pre feedback,
    ),
  )

  -- Any other name yields the plain type of the side and the end.
  pub detect_plain_topic :
      (topic : Text)
      → ((pre : Text) → topic ≢ pre ++ send_goal)
      → ((pre : Text) → topic ≢ pre ++ cancel_goal)
      → ((pre : Text) → topic ≢ pre ++ get_result)
      → ((pre : Text) → topic ≢ pre ++ feedback)
      → detected topic ≡ plain_event_type k is_publisher is_start_event
  unfolding detect_action_event_type
  detect_plain_topic topic a b c d = rw (
    ends_with_none topic send_goal a,
    ends_with_none topic cancel_goal b,
    ends_with_none topic get_result c,
    ends_with_none topic feedback d,
  )
