-- ===== src/Context/Mint.antt =====
-- How a thread comes by its trace context.
use rmw_robotops.Base.{
  ℕ, suc, ◌≡◌, refl, ap, ◌∙◌, true, false, [], ◌∷◌, arith, length, All, Bool-cases, inl, inr, ◌⊎◌,
}
use rmw_robotops.Text.{Text}
use rmw_robotops.SpanId.{generate_trace_id}
use rmw_robotops.SpanId.Hex.{IsHexDigit, generate_trace_id_lem, generate_span_id_lem}
use rmw_robotops.Context.{TraceContext, Thread, starts_nul, is_empty, get_or_mint_trace_context}

-- A root context: ids of full length in hex digits, and no parent.
pub record IsRoot (context : TraceContext) : Type 0 where
  pub trace : (length context.trace_id ≡ 32) × All IsHexDigit context.trace_id
  pub span : (length context.span_id ≡ 16) × All IsHexDigit context.span_id
  pub parent : context.parent_span_id ≡ []

starts_nul-length : (n : ℕ) (xs : Text) → length xs ≡ suc n → starts_nul xs ≡ false
unfolding starts_nul
starts_nul-length n [] h = absurd (omega arith)
starts_nul-length n (x ∷ xs) h = refl

kept :
    (nanos thread_id : ℕ) (t : Thread)
    → is_empty t.context ≡ false
    → get_or_mint_trace_context nanos thread_id t ≡ (t.context, t)
unfolding get_or_mint_trace_context
kept nanos thread_id t e = rw e

module _ (nanos thread_id : ℕ) (t : Thread) where
  mint-IsRoot : is_empty t.context ≡ true → IsRoot (get_or_mint_trace_context nanos thread_id t).0
  unfolding get_or_mint_trace_context
  mint-IsRoot e =
      let drawn = (generate_trace_id nanos thread_id t.rng).1 in
      let high = generate_trace_id_lem nanos thread_id t.rng in
      let low = generate_span_id_lem nanos thread_id drawn in
      rw e (record { trace = (high.0, high.1); span = (low.0, low.1); parent = refl })

  -- The context that a thread gets is set for it and is never empty. A thread that has one keeps it,
  -- with the rest of its state; any other gets a root context with ids of full length. Nothing is
  -- taken from the pending contexts.
  pub get_or_mint_trace_context_lem :
      let (c, t') = get_or_mint_trace_context nanos thread_id t in
      (t'.context ≡ c)
      × (is_empty c ≡ false)
      × (t'.pending ≡ t.pending)
      × (((is_empty t.context ≡ false) × (t' ≡ t)) ⊎ ((is_empty t.context ≡ true) × IsRoot c))
  unfolding get_or_mint_trace_context
  get_or_mint_trace_context_lem = elim (Bool-cases (is_empty t.context)) [
    | inl none_yet ↦ (
      rw none_yet,
      rw none_yet (
          starts_nul-length 31 (generate_trace_id nanos thread_id t.rng).0
            (generate_trace_id_lem nanos thread_id t.rng).0),
      rw none_yet,
      inr (none_yet, mint-IsRoot none_yet),
    )
    | inr has ↦ (rw has, rw has has, rw has, inl (has, rw has refl))
  ]

  -- A second request on the thread, whatever the clock says, returns the same context and changes
  -- nothing.
  pub get_or_mint_trace_context_twice :
      (later other : ℕ)
      → let r = get_or_mint_trace_context nanos thread_id t in
        get_or_mint_trace_context later other r.1 ≡ r
  get_or_mint_trace_context_twice later other =
      let r = get_or_mint_trace_context nanos thread_id t in
      let facts = get_or_mint_trace_context_lem in
      kept later other r.1 (ap is_empty facts.0 ∙ facts.1) ∙ ap (λ c. (c, r.1)) facts.0
