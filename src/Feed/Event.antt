-- ===== src/Feed/Event.antt =====
-- src/common/types.hpp: sides, event types, the event that the parsers emit, and the names of exchanges.
-- A string is the list of its characters' codes.
mod Tests
use fastbook.Prelude.{
  ℕ, ◌-◌, List, [], ◌∷◌, Option, none, some, Bool, true, false, ◌&&◌, leb, ◌==◌, if◌then◌else◌,
}

pub data Side : Type 0 where
  bid ask : Side

pub data EventType : Type 0 where
  added executed replaced cancelled deleted : EventType

pub record MboEvent : Type 0 where
  pub etype : EventType
  pub side : Side
  pub printable : Bool
  pub instrument : ℕ
  pub timestamp : ℕ
  pub oid : ℕ
  pub orig_oid : ℕ
  pub price : ℕ
  pub qty : ℕ
  pub rx_tsc : ℕ

-- The members that an initialiser leaves out.
abbrev pub blank : MboEvent
blank = record {
  etype = EventType.added;
  side = Side.bid;
  printable = false;
  instrument = 0;
  timestamp = 0;
  oid = 0;
  orig_oid = 0;
  price = 0;
  qty = 0;
  rx_tsc = 0;
}

pub data Exchange : Type 0 where
  nasdaq cme cboe nyse eurex : Exchange

-- `std::toupper` in the locale of a program that sets none.
abbrev toupper : ℕ → ℕ
toupper c = if leb 97 c && leb c 122 then c - 32 else c

-- Also false for strings of different sizes.
unfoldable pub iequals : List ℕ → List ℕ → Bool
iequals [] [] = true
iequals [] (y ∷ ys) = false
iequals (x ∷ xs) [] = false
iequals (x ∷ xs) (y ∷ ys) = (toupper x == toupper y) && iequals xs ys

unfoldable pub str_to_exchange : List ℕ → Option Exchange
unfolding iequals
str_to_exchange ex_sv =
    if iequals ex_sv (110 ∷ 97 ∷ 115 ∷ 100 ∷ 97 ∷ 113 ∷ [])
    then some nasdaq
    else if iequals ex_sv (99 ∷ 109 ∷ 101 ∷ [])
    then some cme
    else if iequals ex_sv (99 ∷ 98 ∷ 111 ∷ 101 ∷ [])
    then some cboe
    else if iequals ex_sv (110 ∷ 121 ∷ 115 ∷ 101 ∷ [])
    then some nyse
    else if iequals ex_sv (101 ∷ 117 ∷ 114 ∷ 101 ∷ 120 ∷ [])
    then some eurex
    else none
