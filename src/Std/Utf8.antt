-- ===== src/Std/Utf8.antt =====
-- unicode/utf8: the runes of a byte string, as `range` and `utf8.ValidString` see it.
use stream_hive.Common.{ℕ, zero, suc, ◌+◌, ◌-◌, ◌*◌, ◌%◌, ◌&&◌}
use stream_hive.Common.{Option, none, some, List, [], ◌∷◌, ltb, leb, if◌then◌else◌}
use stream_hive.Common.Bytes.{Bytes}

-- `need` continuation bytes are still to come; the next one lies in [lo, hi].
record Scan : Type 0 where
  need : ℕ
  lo : ℕ
  hi : ℕ
  acc : ℕ

abbrev start : Scan
start = record { need = 0; lo = 0x80; hi = 0xbf; acc = 0 }

-- a first byte: the state after it, or `none` for a byte that starts no rune
first_byte : ℕ → Option Scan
first_byte b =
    if ltb b 0x80
    then some (record start { acc = b })
    else if ltb b 0xc2
    then none
    else if ltb b 0xe0
    then some (record start { need = 1; acc = b % 32 })
    else if ltb b 0xe1
    then some (record start { need = 2; lo = 0xa0; acc = b % 16 })
    else if ltb b 0xed
    then some (record start { need = 2; acc = b % 16 })
    else if ltb b 0xee
    then some (record start { need = 2; hi = 0x9f; acc = b % 16 })
    else if ltb b 0xf0
    then some (record start { need = 2; acc = b % 16 })
    else if ltb b 0xf1
    then some (record start { need = 3; lo = 0x90; acc = b % 8 })
    else if ltb b 0xf4
    then some (record start { need = 3; acc = b % 8 })
    else if ltb b 0xf5
    then some (record start { need = 3; hi = 0x8f; acc = b % 8 })
    else none

next_byte : Scan → ℕ → Option Scan
next_byte s b =
    if leb s.lo b && leb b s.hi
    then some (record start { need = s.need - 1; acc = s.acc * 64 + b % 64 })
    else none

-- `need` is the state's; it says whether a rune is open.
scan_byte : ℕ → Scan → ℕ → Option Scan
unfolding first_byte next_byte
scan_byte zero s b = first_byte b
scan_byte (suc n) s b = next_byte s b

emit : ℕ → ℕ → List ℕ → List ℕ
emit zero rune rest = rune ∷ rest
emit (suc n) rune rest = rest

scan_from : Scan → Bytes → Option (List ℕ)
unfolding scan_byte emit
scan_from s [] = if ltb 0 s.need then none else some []
scan_from s (b ∷ bs) = elim (scan_byte s.need s b) [
  | none ↦ none
  | some t ↦ elim (scan_from t bs) [ none ↦ none | some rest ↦ some (emit t.need t.acc rest) ]
]

-- the runes of a valid string; `none` where `utf8.ValidString` is false
unfoldable pub runes : Bytes → Option (List ℕ)
unfolding scan_from
runes s = scan_from start s
