-- ===== src/Context/Pending.antt =====
-- The buffer of pending contexts as a list that takes sixteen and is emptied as a whole.
use rmw_robotops.Base.{
  ◌==◌, ℕ, zero, suc, ◌+◌, ◌≤◌, ◌<◌, ◌≡◌, refl, sym, ap, ◌∙◌, Bool, true, false, List, [], ◌∷◌,
  ◌++◌, arith, length, ltb, if◌then◌else◌, take, take_all, take-append, set, length-set,
  length-take, append_assoc, append-nil, Bool-cases, ne→==, inl, inr,
}
use rmw_robotops.Context.{
  TraceContext, PendingContexts, Thread, add, save_pending_context, collect_pending_contexts,
}

pub record IsBounded (p : PendingContexts) : Type 0 where
  pub slots : length p.contexts ≡ 16
  pub within : p.count ≤ 16

-- The contexts that wait, oldest first.
abbrev pub waiting : PendingContexts → List TraceContext
waiting p = take p.count p.contexts

take-suc-set :
    {A : Type 0} (xs : List A) (n : ℕ) (x : A)
    → n < length xs
    → take (suc n) (set xs n x) ≡ take n xs ++ x ∷ []
take-suc-set [] n x h = absurd (omega arith)
take-suc-set (y ∷ ys) zero x h = refl
take-suc-set (y ∷ ys) (suc n) x h = ap (λ l. y ∷ l) (take-suc-set ys n x (omega arith))

pub take-take : {A : Type 0} (m n : ℕ) (xs : List A) → m ≤ n → take m (take n xs) ≡ take m xs
take-take zero n xs h = refl
take-take (suc m) zero xs h = absurd (omega arith)
take-take (suc m) (suc n) [] h = refl
take-take (suc m) (suc n) (x ∷ xs) h = ap (λ l. x ∷ l) (take-take m n xs (omega arith))

take_at : {A : Type 0} (xs : List A) (m n : ℕ) → m ≡ n → take m xs ≡ take n xs
take_at xs m n e = ap (λ k. take k xs) e

-- Room for one more: it goes behind the others. Else it is dropped, and nothing changes.
pub add_lem :
    (p : PendingContexts) (c : TraceContext)
    → IsBounded p
    → let (added, p') = add p c in
      IsBounded p'
      × (waiting p' ≡ (if ltb p.count 16 then waiting p ++ c ∷ [] else waiting p))
      × (added ≡ ltb p.count 16)
unfolding add
add_lem p c v = elim (Bool-cases (ltb p.count 16)) [
  | inl room ↦ ground (
    arith,
    take-suc-set p.contexts p.count c (ground arith),
    length-set p.contexts p.count c,
    take_at (set p.contexts p.count c) (p.count + 1) (suc p.count) (omega arith),
  )
  | inr none_left ↦ ground arith
]

take_past : {A : Type 0} (n : ℕ) (xs ys : List A) → length xs ≡ n → take n (xs ++ ys) ≡ xs
take_past n xs ys h = take_at (xs ++ ys) n (length xs) (sym h) ∙ take-append xs ys

not_less : (m k : ℕ) → ltb m k ≡ false → k ≤ m
not_less m k e = ground arith

count_full : (n : ℕ) → n ≤ 16 → ltb n 16 ≡ false → n ≡ 16
count_full n h e = ground arith

saved_tail :
    (ws cs : List TraceContext) (c : TraceContext) (room : Bool)
    → (room ≡ false → length ws ≡ 16)
    → take 16 ((if room then ws ++ c ∷ [] else ws) ++ cs) ≡ take 16 (ws ++ c ∷ cs)
saved_tail ws cs c true h = rw (append_assoc ws (c ∷ []) cs)
saved_tail ws cs c false h = take_past 16 ws cs (h refl) ∙ sym (take_past 16 ws (c ∷ cs) (h refl))

-- The contexts that a thread saves one after the other.
unfoldable pub save_all : List TraceContext → Thread → Thread
save_all [] t = t
save_all (c ∷ cs) t = save_all cs (save_pending_context c t).1

save_all_lem :
    (cs : List TraceContext) (t : Thread)
    → IsBounded t.pending
    → IsBounded (save_all cs t).pending
      × (waiting (save_all cs t).pending ≡ take 16 (waiting t.pending ++ cs))
unfolding save_all save_pending_context
save_all_lem [] t v = (
  v,
  rw append-nil (
      sym (
        take_all 16 (waiting t.pending)
          (omega (arith, length-take t.pending.count t.pending.contexts)))),
)
save_all_lem (c ∷ cs) t v =
    let one = add_lem t.pending c v in
    let rest = save_all_lem cs (save_pending_context c t).1 one.0 in
    (
      rest.0,
      rest.1
          ∙ ap (λ ws. take 16 (ws ++ cs)) one.1
          ∙ saved_tail (waiting t.pending) cs c (ltb t.pending.count 16) (λ full. omega (
            arith,
            count_full t.pending.count v.within full,
            length-take t.pending.count t.pending.contexts,
            v.slots,
          )),
    )

take_smaller :
    {A : Type 0} (m k : ℕ) (xs : List A) → take (if ltb m k then m else k) xs ≡ take m (take k xs)
take_smaller m k xs = elim (Bool-cases (ltb m k)) [
  | inl less ↦ rw less (sym (take-take m k xs (ground arith)))
  | inr more ↦
      rw more (sym (take_all m (take k xs) (omega (arith, length-take k xs, not_less m k more))))
]

-- What a publish attaches as links: of the contexts that were waiting and those saved since, the
-- first sixteen are kept, and of those the first `max_contexts` are handed out, oldest first. Unless
-- nothing is asked for, none waits afterwards.
pub collect-save_all :
    (cs : List TraceContext) (max_contexts : ℕ) (t : Thread)
    → IsBounded t.pending
    → let (out, t') = collect_pending_contexts false max_contexts (save_all cs t) in
      (out ≡ take max_contexts (take 16 (waiting t.pending ++ cs)))
      × IsBounded t'.pending
      × (waiting t'.pending ≡ (if max_contexts == 0 then take 16 (waiting t.pending ++ cs) else []))
unfolding collect_pending_contexts
collect-save_all cs zero t v = (refl, (save_all_lem cs t v).0, (save_all_lem cs t v).1)
collect-save_all cs (suc n) t v =
    let after = save_all_lem cs t v in
    let p = (save_all cs t).pending in
    rw (ne→== (suc n) 0 (omega arith)) (
      take_smaller (suc n) p.count p.contexts ∙ ap (take (suc n)) after.1,
      record { slots = after.0.slots; within = omega arith },
      refl,
    )
