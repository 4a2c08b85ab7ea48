-- ===== src/Server/Names.antt =====
-- cmd/server/main.go: the names of the sessions' files, as `uploadHandler` makes them and as
-- `listHandler` reads them.
pub mod Parsing
pub mod Rounds
use kubecast.Common.{
  ℕ, zero, suc, ◌+◌, ◌-◌, ◌*◌, ◌%◌, ◌^◌, Bool, true, false, not, ◌&&◌, ◌||◌, Option, none, some,
  List, [], ◌∷◌, ◌++◌, ltb, ◌==◌, if◌then◌else◌, ◌>>=◌,
}
use mathlib.Core.List.{reverse}
use kubecast.Text.{Str, newline, codes}
use kubecast.Server.{join_labels}
use kubecast.Server.Hash.{decimal}
use kubecast.Server.Store.{Table, Disk}
use kubecast.Server.Handler.{find_labels}

-- `fmt.Sprintf("%s/%d.cast", dataPath, hash)`.
unfoldable pub cast_name : Str → ℕ → Str
unfolding decimal
cast_name data_path hash = data_path ++ (47 ∷ (decimal 20 hash ++ codes ".cast"))

-- The part of a text before a character, and the part after it; all and nothing if it is not there.
unfoldable pub until : ℕ → Str → Str
until c [] = []
until c (d ∷ s) = let rest = until c s in if d == c then [] else d ∷ rest

unfoldable pub past : ℕ → Str → Option Str
past c [] = none
past c (d ∷ s) = let rest = past c s in if d == c then some s else rest

-- `filepath.Base` of a path that does not end in a slash: what stands after the last one.
unfoldable pub base : Str → Str
unfolding until
base file = reverse (until 47 (reverse file))

-- `basename[0 : len(basename)-len(filepath.Ext(basename))]`: what stands before the last dot.
unfoldable pub stem : Str → Str
unfolding past
stem basename = elim (past 46 (reverse basename)) [ none ↦ basename | some s ↦ reverse s ]

unfoldable pub parse_digits : ℕ → Str → Option ℕ
parse_digits n [] = some n
parse_digits n (c ∷ s) =
    let rest = parse_digits (n * 10 + (c - 48)) s in
    if not (ltb c 48) && ltb c 58 then rest else none

abbrev pub at_most : ℕ → ℕ → Option ℕ
at_most limit n = if ltb limit n then none else some n

-- Digits, one at least, of a number up to a limit.
unfoldable pub parse_nat : ℕ → Str → Option ℕ
unfolding parse_digits
parse_nat limit [] = none
parse_nat limit (c ∷ s) = parse_digits 0 (c ∷ s) >>= at_most limit

-- `uint32` of what `strconv.ParseInt` with base 10 and 64 bits returns; `none` is its error. A sign may
-- stand before the digits.
unfoldable pub parse_hash : Str → Option ℕ
unfolding parse_nat
parse_hash [] = none
parse_hash (c ∷ s) =
    if c == 45
    then (parse_nat (2 ^ 63) s >>= λ n. some ((2 ^ 32 - n % 2 ^ 32) % 2 ^ 32))
    else if c == 43
    then (parse_nat (2 ^ 63 - 1) s >>= λ n. some (n % 2 ^ 32))
    else (parse_nat (2 ^ 63 - 1) (c ∷ s) >>= λ n. some (n % 2 ^ 32))

-- The loop over the files that `filepath.Glob` returns. The disk has its files by hash, with the names
-- that `uploadHandler` makes, so the labels of a file are those at its hash.
unfoldable pub list_files :
    Str → List Str → Table (List Str) → Disk → Option (Str × Table (List Str))
unfolding base stem parse_hash find_labels join_labels
list_files message [] labels disk = some (message, labels)
list_files message (file ∷ files) labels disk = parse_hash (stem (base file)) >>= λ hash.
    find_labels hash labels disk >>= λ p.
    list_files (message ++ (file ++ newline ∷ [] ++ join_labels [] p.0 ++ newline ∷ [])) files p.1
      disk
