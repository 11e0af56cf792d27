-- ===== src/Bmp/Leaf.antt =====
-- `xdb_lv2bmp_t` of lib/xdb_bmp.h: 4096 bits in two levels. Used alone for the tables and databases
-- of a transaction, and as the last two levels of `xdb_bmp_t`.
pub mod Laws
pub mod Count
pub mod Each
mod Tests
use cross_db.Base.{
  ℕ, ◌+◌, ◌*◌, ◌/◌, ◌%◌, ◌^◌, Bool, true, false, not, ◌==◌, ◌&&◌, if◌then◌else◌, List, map, update,
}
use cross_db.Bmp.Word.{bit, set_bit, clr_bit}
use cross_db.Bmp.Scan.{for_each, word_ids}

pub record Leaf : Type 0 where
  pub bmp4 : ℕ
  pub bmp5 : ℕ → ℕ
  pub count : ℕ
  pub b_malloc : Bool

-- `(bit>>6)&0x3f` and `bit&0x3f`
abbrev pub id4 : ℕ → ℕ
id4 b = b / 64 % 64

abbrev pub id5 : ℕ → ℕ
id5 b = b % 64

-- `xdb_lv2bmp_init`: the words of `bmp5` are left as they are.
unfoldable pub init : Leaf → Leaf
init l = record l { bmp4 = 0; count = 0 }

-- `xdb_lv2bmp_set`; `count` is a uint16_t.
unfoldable pub set : Leaf → ℕ → Leaf
set l b =
    if bit l.bmp4 (id4 b)
    then (if not (bit (l.bmp5 (id4 b)) (id5 b))
        then record l {
          bmp5 = update l.bmp5 (id4 b) (set_bit (l.bmp5 (id4 b)) (id5 b));
          count = (l.count + 1) % 65536;
        }
        else l)
    else record l {
      bmp4 = set_bit l.bmp4 (id4 b);
      bmp5 = update l.bmp5 (id4 b) (2 ^ id5 b);
      count = (l.count + 1) % 65536;
    }

-- `xdb_lv2bmp_clr`
unfoldable pub clr : Leaf → ℕ → Leaf
clr l b =
    if bit l.bmp4 (id4 b)
    then (if bit (l.bmp5 (id4 b)) (id5 b)
        then (let w = clr_bit (l.bmp5 (id4 b)) (id5 b) in
            record l {
              count = (l.count + 65535) % 65536;
              bmp5 = update l.bmp5 (id4 b) w;
              bmp4 = if w == 0 then clr_bit l.bmp4 (id4 b) else l.bmp4;
            })
        else l)
    else l

-- `xdb_lv2bmp_get`
unfoldable pub get : Leaf → ℕ → Bool
get l b = if bit l.bmp4 (id4 b) then bit (l.bmp5 (id4 b)) (id5 b) else false

-- `__xdb_lv2bmp_iterate`: the bits with which the callback is called, in order.
unfoldable pub iterate : Leaf → ℕ → List ℕ
iterate l bid = for_each (word_ids l.bmp4) λ a. map (λ c. bid + a * 64 + c) (word_ids (l.bmp5 a))
