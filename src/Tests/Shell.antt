-- ===== src/Tests/Shell.antt =====
-- The history, for kernel/vela.c.
use un_orion.Common.{◌≡◌, refl, true, false, none, some, minus_one, List, [], ◌∷◌, codes, arith}
use un_orion.Net.Text.{scopy}
use un_orion.Vela.History.{
  History, write_entry, shift_down, append_entry, hist, vela_can_back, vela_can_forward, vela_back,
  vela_forward,
}
use un_orion.Vela.Zipper.{Event, visit, back, forward, run, turns}
use un_orion.Vela.Zipper.Refines.{run-turns}

abbrev nothing : History
nothing = record { entries = λ j. []; count = 0; index = minus_one }

abbrev walk : List Event
walk =
    visit (codes "a")
    ∷ visit (codes "b")
    ∷ back true
    ∷ forward false
    ∷ visit (codes "c")
    ∷ back true
    ∷ back true
    ∷ []

run-turns_example : run walk nothing ≡ turns walk ([], [])
run-turns_example =
    run-turns walk nothing (omega arith, (omega arith, (omega arith, tt))) refl refl (λ j. refl)

walked :
    run walk nothing
    ≡ none ∷ none ∷ some (codes "a") ∷ some (codes "b") ∷ none ∷ some (codes "a") ∷ none ∷ []
unfolding hist append_entry write_entry shift_down vela_back vela_forward vela_can_back
    vela_can_forward scopy
walked = refl
