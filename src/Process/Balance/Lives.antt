-- ===== src/Process/Balance/Lives.antt =====
-- Lives of the process, from `rmw_init` to `rmw_shutdown`.
use rmw_robotops.Base.{ℕ, ◌+◌, ◌≡◌, refl, false, Option, some, List, [], ◌∷◌, ◌==◌, arith}
use rmw_robotops.Base.Returns.{◌>>=◌, Returns, Returns-bind, Returns-weaken, Returns-both}
use rmw_robotops.World.{Constants}
use rmw_robotops.Background.Ledger.{Counts, held}
use rmw_robotops.Process.{Platform, Process, Launch, Ending}
use rmw_robotops.Process.Init.{rmw_init, rmw_shutdown}
use rmw_robotops.Process.Sound.{Initialised, rmw_init-IsSound}
use rmw_robotops.Process.Down.{IsDown, rmw_shutdown-IsDown}
use rmw_robotops.Process.Balance.{Quiet, Balanced, Balanced-trans, total}
use rmw_robotops.Process.Balance.Life.{rmw_init-Balanced, rmw_shutdown-Balanced}

module _ {U F : Type 0} (k : Constants) (e : Platform U F) (created destroyed : U → ℕ)
    (counts : Counts e.calls created destroyed) (quiet : Quiet e created destroyed) where
  -- `rmw_init` and then `rmw_shutdown`.
  pub life : Launch → Ending → Process U → Option (ℕ × Process U)
  life launch ending p = do (ret, p') ← rmw_init k e launch p; some (rmw_shutdown k e ending p')

  -- One life is even.
  life_lem :
      (launch : Launch) (ending : Ending) (p : Process U)
      → (k.ret_error == k.ret_ok) ≡ false
      → IsDown p
      → Returns (life launch ending p) (λ r.
        IsDown r.1
        × (created r.1.world.outside + destroyed p.world.outside
            ≡ created p.world.outside + destroyed r.1.world.outside))
  unfolding life Returns held
  life_lem launch ending p errs down =
      let started : Returns (rmw_init k e launch p)
          (λ r. Initialised k e launch p r × Balanced created destroyed p r.1) =
        Returns-both (Initialised k e launch p) (λ r. Balanced created destroyed p r.1)
          (rmw_init k e launch p) (rmw_init-IsSound k e launch p errs down.0)
          (rmw_init-Balanced k e created destroyed counts quiet launch p down.0) in
      Returns-bind (λ r. Initialised k e launch p r × Balanced created destroyed p r.1)
        (λ r.
          IsDown r.1
          × (created r.1.world.outside + destroyed p.world.outside
              ≡ created p.world.outside + destroyed r.1.world.outside))
        _ _ started
        (λ r h.
          let q = (rmw_shutdown k e ending r.1).1 in
          let down' : IsDown q = rmw_shutdown-IsDown k e ending r.1 h.0.0 in
          let even =
            Balanced-trans created destroyed p r.1 q h.1
              (rmw_shutdown-Balanced k e created destroyed counts quiet ending r.1 h.0.0) in
          let before : total p ≡ 0 = rw (down.1, down.2, down.3) refl in
          let after : total q ≡ 0 = rw (down'.1, down'.2, down'.3) refl in (down', omega arith))

  -- Any number of lives, one after the other.
  pub lives : List (Launch × Ending) → Process U → Option (Process U)
  lives [] p = some p
  lives ((launch, ending) ∷ rest) p = do (ret, p') ← life launch ending p; lives rest p'

  -- For two counts outside that each creation and each destruction of a node or a publisher raises by
  -- one, and that every other call of the middleware and of the linker keeps, and an error code that is
  -- not that of success: from a sound process that is down, `rmw_init`, however it ends, and then
  -- `rmw_shutdown`, repeated any number of times, always return, take the process down again, and
  -- destroy as many nodes and publishers as they create.
  pub lives_lem :
      (times : List (Launch × Ending)) (p : Process U)
      → (k.ret_error == k.ret_ok) ≡ false
      → IsDown p
      → Returns (lives times p) (λ q.
        IsDown q
        × (created q.world.outside + destroyed p.world.outside
            ≡ created p.world.outside + destroyed q.world.outside))
  unfolding lives Returns
  lives_lem [] p errs down = (down, omega arith)
  lives_lem ((launch, ending) ∷ rest) p errs down =
      let Even' : Process U → Process U → Type 0 = λ p q.
        created q.world.outside + destroyed p.world.outside
        ≡ created p.world.outside + destroyed q.world.outside in
      Returns-bind (λ r. IsDown r.1 × Even' p r.1) (λ q. IsDown q × Even' p q) _ _
        (life_lem launch ending p errs down)
        (λ r h.
          Returns-weaken (λ q. IsDown q × Even' r.1 q) (λ q. IsDown q × Even' p q) (lives rest r.1)
            (lives_lem rest r.1 errs h.0)
            (λ q g. (g.0, (let first = h.1 in let second = g.1 in omega arith))))
