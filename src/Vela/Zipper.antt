-- ===== src/Vela/Zipper.antt =====
-- kernel/vela.c: the history as a list of the pages behind and a list of the pages ahead.
pub mod Entries
pub mod Refines
use un_orion.Common.{
  ℕ, zero, suc, ◌+◌, ◌-◌, ◌≤◌, ◌<◌, ◌≡◌, refl, sym, ap, ◌∙◌, Bool, true, false, not, ◌&&◌, ◌||◌,
  Option, none, some, ℤ, pos, negsuc, minus_one, List, [], ◌∷◌, ◌++◌, Bytes, take, length,
  same_bytes, ltb, ◌==◌, if◌then◌else◌, Bool-cases, inl, inr, arith,
}
use un_orion.Net.Text.{scopy}
use un_orion.Net.Stack.Stream.{take-whole}
use un_orion.Vela.History.{
  History, after_index, write_entry, shift_down, append_entry, is_current, hist, vela_can_back,
  vela_can_forward, vela_back, vela_forward,
}

-- A page is visited, or one step back or forward is asked for, whose page loads or not.
pub data Event : Type 0 where
  visit : Bytes → Event
  back : Bool → Event
  forward : Bool → Event

abbrev pub step : Event → History → Option Bytes × History
step (visit u) h = (none, hist u h)
step (back loads) h = vela_back loads h
step (forward loads) h = vela_forward loads h

abbrev pub run : List Event → History → List (Option Bytes)
run [] h = []
run (e ∷ es) h = let (page, h') = step e h in page ∷ run es h'

-- The pages behind, the current one first, and the pages ahead.
abbrev pub Pages : Type 0
Pages = List Bytes × List Bytes

-- A visit cuts off what is ahead and keeps twelve pages; the current page is not entered again.
abbrev pub visited : Bytes → Pages → Pages
visited u ([], ahead) = if length u == 0 then ([], ahead) else (u ∷ [], [])
visited u (c ∷ behind, ahead) =
    if length u == 0 || same_bytes c u then (c ∷ behind, ahead) else (take 12 (u ∷ c ∷ behind), [])

abbrev pub page_turn : Event → Pages → Option Bytes × Pages
page_turn (visit u) z = (none, visited u z)
page_turn (back loads) (c ∷ d ∷ behind, ahead) =
    (some d, if loads then (d ∷ behind, c ∷ ahead) else (c ∷ d ∷ behind, ahead))
page_turn (back loads) z = (none, z)
page_turn (forward loads) (c ∷ behind, d ∷ ahead) =
    (some d, if loads then (d ∷ c ∷ behind, ahead) else (c ∷ behind, d ∷ ahead))
page_turn (forward loads) z = (none, z)

abbrev pub turns : List Event → Pages → List (Option Bytes)
turns [] z = []
turns (e ∷ es) z = let (page, z') = page_turn e z in page ∷ turns es z'

-- The addresses fit in an entry.
abbrev pub AreShort : List Event → Type 0
AreShort [] = Unit
AreShort (visit u ∷ es) = (length u < 256) × AreShort es
AreShort (e ∷ es) = AreShort es
