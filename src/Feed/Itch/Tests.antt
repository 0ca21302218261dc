-- ===== src/Feed/Itch/Tests.antt =====
-- The ITCH theorems at a replace message, and at one that is cut short.
use fastbook.Prelude.{true, ◌≡◌, ◌↔◌, ◌<◌, refl, some, none, [], ◌∷◌, arith}
use fastbook.Feed.Event.{Side, blank}
use fastbook.Feed.Bytes.{to_big_endian, from_big_endian, read_num, read_timestamp, take_n, ◌>>=◌}
use fastbook.Feed.Itch.Message.{OrderReplace, AddOrder, order_replace, add_order}
use fastbook.Feed.Itch.Wire.{encode}
use fastbook.Feed.Itch.RoundTrip.{parse_msg-encode}
use fastbook.Feed.Itch.Length.{parse_msg-none_iff}
use fastbook.Feed.Itch.{parse, parse_msg, parse_body, events_of, parse_add_order_msg}

abbrev replacement : OrderReplace
replacement = record {
  stock_locate = 7;
  tracking_number = 2;
  timestamp = 34_200_000_000_001;
  orig_order_ref_num = 41;
  new_order_ref_num = 42;
  shares = 300;
  price = 1_500_000;
}

parse_msg-encode_example :
    parse_msg (encode (order_replace replacement) (9 ∷ []))
    ≡ some (order_replace replacement, 9 ∷ [])
parse_msg-encode_example = parse_msg-encode (order_replace replacement) (9 ∷ []) (omega arith)

-- A delete message of two bytes.
parse_msg-none_iff_example : (parse_msg [] ≡ none) × ((parse_msg (b'D' ∷ 0 ∷ []) ≡ none) ↔ (1 < 18))
parse_msg-none_iff_example = parse_msg-none_iff b'D' (0 ∷ [])

abbrev added : AddOrder
added = record {
  stock_locate = 7;
  tracking_number = 2;
  timestamp = 5;
  order_ref_num = 41;
  side = b'S';
  shares = 100;
  stock = 65 ∷ 66 ∷ 32 ∷ 32 ∷ 32 ∷ 32 ∷ 32 ∷ 32 ∷ [];
  price = 12;
}

added_event :
    parse (encode (add_order added) [])
    ≡ some (
        record blank {
          side = Side.ask;
          printable = true;
          instrument = 7;
          timestamp = 5;
          oid = 41;
          price = 12;
          qty = 100;
        }
        ∷ [])
unfolding parse parse_msg parse_body events_of parse_add_order_msg read_num read_timestamp take_n
    ◌>>=◌ to_big_endian from_big_endian
added_event = refl

-- A side that is neither B nor S fails the assertion.
added_bad_side : parse (encode (add_order (record added { side = 0 })) []) ≡ none
unfolding parse parse_msg parse_body events_of parse_add_order_msg read_num read_timestamp take_n
    ◌>>=◌ to_big_endian from_big_endian
added_bad_side = refl
