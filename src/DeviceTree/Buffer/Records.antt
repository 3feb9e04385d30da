-- ===== src/DeviceTree/Buffer/Records.antt =====
-- The loop of `parseVPDBuffer`: its rounds suffice, it stays in the block that its size describes,
-- and it reads back what was encoded.
use lsvpd.Base.{
  ℕ, zero, suc, ◌+◌, ◌-◌, ◌≤◌, List, [], ◌∷◌, ◌++◌, ◌≡◌, ◌≢◌, refl, sym, ◌∙◌, ap, arith, Bytes,
  length, take, drop, length-drop, length-append, take-append, drop-append, append_assoc,
}
use lsvpd.Vpd.{Call}
use lsvpd.DeviceTree.Buffer.{
  Outcome, ok, fault, Parsed, complete, corrupt, after, record_calls, parse_records,
}
use lsvpd.DeviceTree.Buffer.Encode.{
  Item, IsItem, AllItems, cons, encode_items, items_size, item_calls,
}

pub after-ne-fault : (cs : List Call) (o : Outcome Parsed) → o ≢ fault → after cs o ≢ fault
after-ne-fault cs (ok (complete ds)) h = cc
after-ne-fault cs (ok (corrupt ds)) h = cc
after-ne-fault cs fault h = absurd (h refl)

-- Rounds beyond the distance to the end are never made.
pub parse_records-fuel :
    (f g : ℕ) (buf : Bytes) (left : ℕ)
    → left ≤ f
    → left ≤ g
    → parse_records f buf left ≡ parse_records g buf left
unfolding parse_records
parse_records-fuel zero zero buf left hf hg = refl
parse_records-fuel zero (suc g) buf zero hf hg = refl
parse_records-fuel (suc f) zero buf zero hf hg = refl
parse_records-fuel zero (suc g) buf (suc left) hf hg = absurd (omega arith)
parse_records-fuel (suc f) zero buf (suc left) hf hg = absurd (omega arith)
parse_records-fuel (suc f) (suc g) buf zero hf hg = refl
parse_records-fuel (suc f) (suc g) [] (suc left) hf hg = refl
parse_records-fuel (suc f) (suc g) (c ∷ []) (suc left) hf hg = refl
parse_records-fuel (suc f) (suc g) (c ∷ d ∷ []) (suc left) hf hg = refl
parse_records-fuel (suc f) (suc g) (k₀ ∷ k₁ ∷ len ∷ buf) (suc left) hf hg =
    rw (parse_records-fuel f g (drop len buf) (suc left - 3 - len) (omega arith) (omega arith))

-- If the block holds the bytes up to the end, no read leaves it.
pub parse_records-ne-fault :
    (f : ℕ) (buf : Bytes) (left : ℕ) → left ≤ length buf → parse_records f buf left ≢ fault
unfolding parse_records
parse_records-ne-fault zero buf left h = cc
parse_records-ne-fault (suc f) buf zero h = cc
parse_records-ne-fault (suc f) [] (suc left) h = absurd (omega arith)
parse_records-ne-fault (suc f) (c ∷ []) (suc left) h = ground arith
parse_records-ne-fault (suc f) (c ∷ d ∷ []) (suc left) h = ground arith
parse_records-ne-fault (suc f) (k₀ ∷ k₁ ∷ len ∷ buf) (suc left) h = ground (
  arith,
  after-ne-fault (record_calls k₀ k₁ (take len buf))
      (parse_records f (drop len buf) (suc left - 3 - len)),
  parse_records-ne-fault f (drop len buf) (suc left - 3 - len),
  length-drop len buf,
)

after-nil : (o : Outcome Parsed) → after [] o ≡ o
after-nil (ok (complete ds)) = refl
after-nil (ok (corrupt ds)) = refl
after-nil fault = refl

after-append : (cs ds : List Call) (o : Outcome Parsed) → after cs (after ds o) ≡ after (cs ++ ds) o
after-append cs ds (ok (complete es)) = rw append_assoc
after-append cs ds (ok (corrupt es)) = rw append_assoc
after-append cs ds fault = refl

pub parse_records-item :
    (f k : ℕ) (i : Item) (rest : Bytes)
    → IsItem i
    → parse_records (suc f) (encode_items (i ∷ []) rest) (suc (2 + length i.value + k))
      ≡ after (record_calls i.key₀ i.key₁ i.value) (parse_records f rest k)
unfolding parse_records
parse_records-item f k i rest h =
    let e : suc (2 + length i.value + k) - 3 - length i.value ≡ k = omega arith in
    rw (take-append i.value rest, drop-append i.value rest, e)
      (ground (arith, length-append i.value rest))

-- Over encoded keywords the loop makes their calls and goes on behind them.
pub parse_records-encode_items :
    (is : List Item) (f k : ℕ) (rest : Bytes)
    → AllItems is
    → items_size is + k ≤ f
    → parse_records f (encode_items is rest) (items_size is + k)
      ≡ after (item_calls is) (parse_records k rest k)
parse_records-encode_items [] f k rest h hf =
    let e : 0 + k ≡ k = omega arith in
    rw e (
      parse_records-fuel f k rest k (omega arith) (omega arith)
      ∙ sym (after-nil (parse_records k rest k)))
parse_records-encode_items (i ∷ is) zero k rest h hf = absurd (omega arith)
parse_records-encode_items (i ∷ is) (suc f) k rest (cons v vs) hf =
    let e : 3 + length i.value + items_size is + k
        ≡ suc (2 + length i.value + (items_size is + k)) =
      omega arith in
    rw e (
      parse_records-item f (items_size is + k) i (encode_items is rest) v
      ∙ ap (after (record_calls i.key₀ i.key₁ i.value))
          (parse_records-encode_items is f k rest vs (omega arith))
      ∙ after-append (record_calls i.key₀ i.key₁ i.value) (item_calls is) (parse_records k rest k))
