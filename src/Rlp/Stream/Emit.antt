-- ===== src/Rlp/Stream/Emit.antt =====
-- Streaming a value item by item, with a count announced for each list, as `rlpList` and
-- `appendVector` do (libdevcore/RLP.h): the buffer gets the encoding of the value.
use mvis_tokenminer.Prelude.{ℕ, suc, ◌<◌, ◌≡◌, refl, ap, ◌∙◌, sym, arith, true, false}
use mvis_tokenminer.Prelude.{List, [], ◌∷◌, ◌++◌, append-nil, append_assoc, Result, ok, err, ◌>>=◌}
use mvis_tokenminer.Prelude.{inl, inr, Bool-cases, ltb, length}
use mvis_tokenminer.Rlp.Constants.{RlpError}
use mvis_tokenminer.Rlp.Item.{Item, Items, str, list, nil, cons, encode, encode_all, encode_str}
use mvis_tokenminer.Rlp.Item.{header, count_items, IsSmall, AreSmall}
use mvis_tokenminer.Rlp.Stream.{RlpStream, note_loop, note_appended, append_raw}
use mvis_tokenminer.Rlp.Stream.{append_list_rlp, append_list, append_bytes, is_low_byte, finish}
use mvis_tokenminer.Rlp.Stream.Close.{address_space, close_list-header, data_head-header}

unfoldable mutual
  -- What a caller does for a value: a string is appended; a list is announced, and its items follow.
  pub emit : Item → RlpStream → Result RlpError RlpStream
  emit (str bytes) s = append_bytes bytes false s
  emit (list xs) s = append_list (count_items xs) s >>= emit_all xs

  pub emit_all : Items → RlpStream → Result RlpError RlpStream
  emit_all nil s = ok s
  emit_all (cons x xs) s = emit x s >>= emit_all xs

-- The stream after one more item: what `noteAppended` makes of the longer buffer.
abbrev appended : List ℕ → RlpStream → Result RlpError RlpStream
appended bytes s = note_loop 1 (s.out ++ bytes) s.list_stack

abbrev IsLow : List ℕ → Type 0
IsLow d = is_low_byte d ≡ true

append_headed :
    (d : List ℕ) (s : RlpStream)
    → is_low_byte d ≡ false
    → length d < address_space
    → append_bytes d false s ≡ appended (header 0x80 (length d) ++ d) s
unfolding append_bytes append_raw note_appended
append_headed d s low h = rw (low, data_head-header d s.out h, append_assoc)

append_bytes-encode :
    (d : List ℕ) (s : RlpStream)
    → length d < address_space
    → append_bytes d false s ≡ appended (encode_str d) s
append_bytes-encode [] s h = append_headed [] s refl h ∙ rw append-nil
append_bytes-encode (b ∷ []) s h = elim (Bool-cases (ltb b 0x80)) [
  | inl low ↦ rw low (unfold append_bytes note_appended in rw low)
  | inr high ↦ rw high (append_headed (b ∷ []) s high h)
]
append_bytes-encode (b ∷ c ∷ rest) s h = append_headed (b ∷ c ∷ rest) s refl h

pub bind_ok {ℓ} : {E : Type 0} {A : Type ℓ} (r : Result E A) → (r >>= λ a. ok a) ≡ r
bind_ok (ok a) = refl
bind_ok (err e) = refl

append_list_empty : (s : RlpStream) → append_list 0 s ≡ appended (0xc0 ∷ []) s
unfolding append_list append_list_rlp append_raw note_appended
append_list_empty s = rw append-nil

append_list_some :
    (k : ℕ) (s : RlpStream)
    → append_list (suc k) s ≡ ok (record s { list_stack = (suc k, length s.out) ∷ s.list_stack })
unfolding append_list
append_list_some k s = ground arith

-- The last item that a list waits for completes the list.
note_loop_last :
    (pre payload : List ℕ) (stack : List (ℕ × ℕ))
    → length payload < address_space
    → note_loop 1 (pre ++ payload) ((1, length pre) ∷ stack)
      ≡ note_loop 1 (pre ++ (header 0xc0 (length payload) ++ payload)) stack
unfolding note_loop
note_loop_last pre payload stack h = rw (close_list-header pre payload h)

-- An earlier item is only counted.
note_loop_earlier :
    (k p : ℕ) (out : List ℕ) (stack : List (ℕ × ℕ))
    → note_loop 1 out ((suc (suc k), p) ∷ stack)
      ≡ ok (record { out = out; list_stack = (suc k, p) ∷ stack })
unfolding note_loop
note_loop_earlier k p out stack = ground arith

mutual
  unfolding emit emit_all encode encode_all IsSmall AreSmall

  emit-encode : (x : Item) (s : RlpStream) → IsSmall x → emit x s ≡ appended (encode x) s
  emit-encode (str bytes) s h = append_bytes-encode bytes s (omega arith)
  emit-encode (list nil) s h = rw (append_list_empty s) (bind_ok (appended (0xc0 ∷ []) s))
  emit-encode (list (cons x xs)) s h = rw (append_list_some (count_items xs) s) (
      ap
        (λ out.
          emit_all (cons x xs) (record {
            out = out;
            list_stack = (suc (count_items xs), length s.out) ∷ s.list_stack;
          }))
        (sym (append-nil s.out))
      ∙ emit_all-encode (cons x xs) s.out [] s.list_stack (omega arith) h.0 (omega arith))

  -- The items of a list that waits for as many: the last one completes it.
  emit_all-encode :
      (xs : Items) (pre done : List ℕ) (stack : List (ℕ × ℕ))
      → 0 < count_items xs
      → AreSmall xs
      → length (done ++ encode_all xs) < address_space
      → emit_all xs
          (record { out = pre ++ done; list_stack = (count_items xs, length pre) ∷ stack })
        ≡ note_loop 1
            (pre ++ (header 0xc0 (length (done ++ encode_all xs)) ++ (done ++ encode_all xs)))
            stack
  emit_all-encode nil pre done stack some_left h small = absurd (omega arith)
  emit_all-encode (cons x nil) pre done stack some_left h small =
      rw (emit-encode x (record { out = pre ++ done; list_stack = (1, length pre) ∷ stack }) h.0) (
        bind_ok _
        ∙ rw (append-nil (encode x), append_assoc pre done (encode x))
            (note_loop_last pre (done ++ encode x) stack (rw append-nil at small)))
  emit_all-encode (cons x (cons y ys)) pre done stack some_left h small =
      rw
        (
          emit-encode x
              (record {
                out = pre ++ done;
                list_stack = (suc (suc (count_items ys)), length pre) ∷ stack;
              })
              h.0,
          note_loop_earlier (count_items ys) (length pre) _ stack,
          append_assoc pre done (encode x),
          ← append_assoc done (encode x) (encode_all (cons y ys)),
        )
        (emit_all-encode (cons y ys) pre (done ++ encode x) stack (omega arith) h.1
          (rw (append_assoc done (encode x) (encode_all (cons y ys))) small))

-- Streaming a value, into a stream that waits for nothing, appends its encoding and leaves no open
-- list: `out()` gives what was there and the encoding behind it.
pub emit-finish :
    (x : Item) (before : List ℕ)
    → IsSmall x
    → (emit x (record { out = before; list_stack = [] }) >>= finish) ≡ ok (before ++ encode x)
unfolding note_loop finish
emit-finish x before h = rw (emit-encode x (record { out = before; list_stack = [] }) h)
