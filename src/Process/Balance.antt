-- ===== src/Process/Balance.antt =====
-- What the starts of a process create in the middleware.
pub mod Stop
pub mod Life
pub mod Lives
use rmw_robotops.Base.{
  ℕ, ◌+◌, ◌≡◌, refl, ap, ◌∙◌, Bool, true, false, not, ◌&&◌, ◌||◌, Option, none, some, List, [], ◌∷◌,
  ◌==◌, if◌then◌else◌, arith, Bool-cases, inl, inr, if-intro,
}
use rmw_robotops.Base.Returns.{◌>>=◌, Returns, Returns-bind, Returns-weaken, Returns-both}
use rmw_robotops.Text.{Text, same_text}
use rmw_robotops.World.{World, Constants, check_tracing}
use rmw_robotops.Exporter.Frame.{Keeps, publisher_thread_func-keeps}
use rmw_robotops.Background.{
  Background, Kind, Calls, Pointers, idle, start_publisher, stop_publisher, destroy_node_name,
  destroy_publisher_name,
}
use rmw_robotops.Background.Settled.{IsSettled, stop_publisher-stopped}
use rmw_robotops.Background.Ledger.{
  Counts, Accounts, held, start_publisher-Accounts, stop_publisher-Accounts,
}
use rmw_robotops.Loader.{Loader, load_underlying_rmw, library_name, required_functions}
use rmw_robotops.Loader.Complete.{IsComplete, listed, pointer_set}
use rmw_robotops.Process.{
  Platform, Process, Launch, Ending, Outgoing, sender, trace_kind, context_kind, diagnostics_kind,
  check_diagnostics, start_trace_publisher, start_trace_context_change_publisher,
  start_diagnostics_publisher,
}
use rmw_robotops.Process.Sound.{
  IsSound, Kept, start_trace_publisher-IsSound, start_trace_context_change_publisher-IsSound,
  start_diagnostics_publisher-IsSound,
}

-- The other calls of the middleware and of the linker create and destroy no node and no publisher.
pub record Quiet {U F : Type 0} (e : Platform U F) (created destroyed : U → ℕ) : Type 0 where
  pub publish_quiet :
      (a q : ℕ) (m : Outgoing) (u : U)
      → (created (e.publish a q m u) ≡ created u) × (destroyed (e.publish a q m u) ≡ destroyed u)
  pub init_quiet :
      (a : ℕ) (u : U)
      → (created (e.init a u).1 ≡ created u) × (destroyed (e.init a u).1 ≡ destroyed u)
  pub shutdown_quiet :
      (a : ℕ) (u : U)
      → (created (e.shutdown a u).1 ≡ created u) × (destroyed (e.shutdown a u).1 ≡ destroyed u)
  pub dlopen_quiet :
      (name : Text) (u : U)
      → (created (e.linker.dlopen name u).1 ≡ created u)
        × (destroyed (e.linker.dlopen name u).1 ≡ destroyed u)
  pub dlclose_quiet :
      (lib : ℕ) (u : U)
      → (created (e.linker.dlclose lib u) ≡ created u)
        × (destroyed (e.linker.dlclose lib u) ≡ destroyed u)

-- What the three publishers hold on to.
abbrev pub total : {U : Type 0} → Process U → ℕ
total p = held p.trace + held p.context + held p.diagnostics

module _ {U : Type 0} (created destroyed : U → ℕ) where
  -- What was created since `p` and not destroyed is what is held now and was not held then.
  abbrev pub Balanced : Process U → Process U → Type 0
  Balanced p p' =
      created p'.world.outside + destroyed p.world.outside + total p
      ≡ created p.world.outside + destroyed p'.world.outside + total p'

  pub Balanced-trans : (p q r : Process U) → Balanced p q → Balanced q r → Balanced p r
  Balanced-trans p q r h g = omega arith

module _ {U F : Type 0} (k : Constants) (e : Platform U F) (created destroyed : U → ℕ)
    (counts : Counts e.calls created destroyed) (quiet : Quiet e created destroyed) where
  starts_account :
      (l : Loader) (kind : Kind) (check : World U → Bool × World U) (starts : Bool) (b : Background)
      (w : World U)
      → (check w).1.outside ≡ w.outside
      → IsComplete l
      → (l.lib == 0) ≡ false
      → IsSettled b
      → Returns
          (start_publisher k e.calls l.pointers kind check starts b w)
          (λ r. Accounts created destroyed b w r.1 r.2)
  unfolding listed same_text
  starts_account l kind check starts b w same complete open_lib s =
      start_publisher-Accounts k e.calls l.pointers created destroyed counts
        (pointer_set l destroy_node_name complete open_lib refl)
        (pointer_set l destroy_publisher_name complete open_lib refl) kind check starts b w same s

  pub start_trace_publisher-Balanced :
      (launch : Launch) (p : Process U)
      → IsSound p
      → (p.loader.lib == 0) ≡ false
      → Returns (start_trace_publisher k e launch p) (λ r. Balanced created destroyed p r.1)
  unfolding start_trace_publisher Returns check_tracing
  start_trace_publisher-Balanced launch p s open_lib =
      Returns-bind (λ r. Accounts created destroyed p.trace p.world r.1 r.2)
        (λ r. Balanced created destroyed p r.1) _ _
        (starts_account p.loader (trace_kind k e) check_tracing launch.trace_starts p.trace p.world
          refl s.complete open_lib s.trace_settled)
        (λ r h. omega arith)

  pub start_trace_context_change_publisher-Balanced :
      (launch : Launch) (p : Process U)
      → IsSound p
      → (p.loader.lib == 0) ≡ false
      → Returns
          (start_trace_context_change_publisher k e launch p)
          (λ r. Balanced created destroyed p r.1)
  unfolding start_trace_context_change_publisher Returns check_tracing
  start_trace_context_change_publisher-Balanced launch p s open_lib =
      Returns-bind (λ r. Accounts created destroyed p.context p.world r.1 r.2)
        (λ r. Balanced created destroyed p r.1) _ _
        (starts_account p.loader (context_kind k e) check_tracing launch.context_starts p.context
          p.world refl s.complete open_lib s.context_settled)
        (λ r h. omega arith)

  pub start_diagnostics_publisher-Balanced :
      (launch : Launch) (p : Process U)
      → IsSound p
      → (p.loader.lib == 0) ≡ false
      → Returns (start_diagnostics_publisher k e launch p) (λ r. Balanced created destroyed p r.1)
  unfolding start_diagnostics_publisher Returns
  start_diagnostics_publisher-Balanced launch p s open_lib =
      Returns-bind (λ r. Accounts created destroyed p.diagnostics p.world r.1 r.2)
        (λ r. Balanced created destroyed p r.1) _ _
        (starts_account p.loader (diagnostics_kind k e) (check_diagnostics k e)
          launch.diagnostics_starts p.diagnostics p.world refl s.complete open_lib
          s.diagnostics_settled)
        (λ r h. omega arith)
