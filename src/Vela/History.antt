-- ===== src/Vela/History.antt =====
-- kernel/vela.c: `hist`, `vela_back` and `vela_forward`. Whether the navigation of a step succeeds is an
-- argument, `loads`: `nav` without a push leaves the history alone.
use un_orion.Common.{
  ℕ, zero, suc, ◌+◌, ◌-◌, Bool, not, ◌&&◌, ◌||◌, Option, none, some, ℤ, pos, negsuc, Bytes, length,
  same_bytes, ltb, ◌==◌, if◌then◌else◌,
}
use un_orion.Net.Text.{scopy}

-- `VELA_HISTORY_MAX` and `VELA_URL_CAP`
abbrev pub history_max : ℕ
history_max = 12

abbrev pub url_cap : ℕ
url_cap = 256

-- `g_history`, `g_history_count` and `g_history_index`
pub record History : Type 0 where
  pub entries : ℕ → Bytes
  pub count : ℕ
  pub index : ℤ

-- `g_history_index+1`
abbrev pub after_index : ℤ → ℕ
after_index (pos i) = i + 1
after_index (negsuc _) = 0

-- `cp(g_history[i],VELA_URL_CAP,u)`
unfoldable pub write_entry : ℕ → Bytes → (ℕ → Bytes) → ℕ → Bytes
write_entry i u entries j = if j == i then scopy url_cap u else entries j

-- The loop that moves the entries from `i` on down by one.
unfoldable pub shift_down : ℕ → ℕ → (ℕ → Bytes) → ℕ → Bytes
shift_down zero i entries = entries
shift_down (suc n) i entries = shift_down n (i + 1) (write_entry (i - 1) (entries i) entries)

-- `hist` after its comparison: what is ahead is cut off.
unfoldable pub append_entry : Bytes → History → History
append_entry u h =
    let here = after_index h.index in
    let count = if ltb here h.count then here else h.count in
    if ltb count history_max
    then record { entries = write_entry count u h.entries; count = count + 1; index = pos count }
    else record {
      entries = write_entry (history_max - 1) u (shift_down (history_max - 1) 1 h.entries);
      count = count;
      index = pos (history_max - 1);
    }

abbrev pub is_current : Bytes → History → Bool
is_current u h =
    not (after_index h.index == 0) && same_bytes (h.entries (after_index h.index - 1)) u

unfoldable pub hist : Bytes → History → History
hist u h = if length u == 0 || is_current u h then h else append_entry u h

unfoldable pub vela_can_back : History → Bool
vela_can_back h = ltb 1 (after_index h.index)

unfoldable pub vela_can_forward : History → Bool
vela_can_forward h = not (after_index h.index == 0) && ltb (after_index h.index) h.count

-- The address that is loaded again, and the history after it.
unfoldable pub vela_back : Bool → History → Option Bytes × History
vela_back loads h =
    let x = after_index h.index - 2 in
    if not (vela_can_back h)
    then (none, h)
    else (some (scopy url_cap (h.entries x)), if loads then record h { index = pos x } else h)

unfoldable pub vela_forward : Bool → History → Option Bytes × History
vela_forward loads h =
    let x = after_index h.index in
    if not (vela_can_forward h)
    then (none, h)
    else (some (scopy url_cap (h.entries x)), if loads then record h { index = pos x } else h)
