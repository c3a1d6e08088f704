-- ===== src/Http/Url/Path/Items.antt =====
-- Parameters and queries, written and read.
use cpp_tbox.Common.{
  ℕ, suc, ◌≡◌, refl, sym, ap, subst, ◌∙◌, true, false, ◌||◌, not, inl, inr, some, List, [], ◌∷◌,
  ◌++◌, append-nil, append_assoc, length, map, arith, Bool-cases,
}
use cpp_tbox.Common.Maybe.{◌>>=◌}
use cpp_tbox.Http.Url.{contains, is_print, encode_char, url_encode}
use cpp_tbox.Http.Url.RoundTrip.{AllBytes, all_below, url_decode-url_encode}
use cpp_tbox.Http.Url.Path.{
  StringMap, less, assign, item_to_string, split_at, key_value, read_item, read_items,
}
use cpp_tbox.Http.Url.Path.Free.{chars, IsSpecial, url_encode-Free}
use cpp_tbox.Util.Strings.{join, join_rest}
use cpp_tbox.Util.Strings.Separated.{Free, AllFree, split-join}

pub split_at-join :
    (c : ℕ) (s : List ℕ) (ss : List (List ℕ))
    → Free c s
    → AllFree c ss
    → split_at c (join (c ∷ []) (s ∷ ss)) ≡ some (s ∷ ss)
unfolding split_at
split_at-join c s ss h hs =
    split-join (suc (length (join (c ∷ []) (s ∷ ss)))) c s ss h hs (omega arith)

-- Keys that are not empty; keys and values of bytes.
abbrev pub IsItem : List ℕ × List ℕ → Type 0
IsItem ([], v) = ⊥
IsItem (c ∷ k, v) = AllBytes (c ∷ k) × AllBytes v

key_value-two : (c : ℕ) (s t : List ℕ) → key_value ((c ∷ s) ∷ (t ∷ [])) ≡ some (c ∷ s, t)
unfolding key_value
key_value-two c s t = refl

key_value-url_encode :
    (c : ℕ) (k t : List ℕ)
    → key_value (url_encode false (c ∷ k) ∷ (t ∷ [])) ≡ some (url_encode false (c ∷ k), t)
unfolding url_encode encode_char
key_value-url_encode c k t = elim (Bool-cases (contains (chars false) c || not (is_print c))) [
  | inl e ↦ (rw (e) (key_value-two _ _ t))
  | inr e ↦ (rw (e) (key_value-two _ _ t))
]

pub equals-IsSpecial : IsSpecial false 61
unfolding contains all_below
equals-IsSpecial = (refl, refl, refl)

split_at-item :
    (k v : List ℕ)
    → AllBytes k
    → AllBytes v
    → split_at 61 (url_encode false k ++ (61 ∷ url_encode false v))
      ≡ some (url_encode false k ∷ (url_encode false v ∷ []))
unfolding join join_rest
split_at-item k v bk bv =
    subst
      (λ t.
        split_at 61 (url_encode false k ++ (61 ∷ t))
        ≡ some (url_encode false k ∷ (url_encode false v ∷ [])))
      (append-nil (url_encode false v))
      (split_at-join 61 (url_encode false k) (url_encode false v ∷ [])
        (url_encode-Free false 61 k equals-IsSpecial bk)
        (url_encode-Free false 61 v equals-IsSpecial bv, _))

pub read_item-item_to_string :
    (item : List ℕ × List ℕ) (m : StringMap)
    → IsItem item
    → read_item (item_to_string item) m ≡ some (assign item.0 item.1 m)
unfolding read_item item_to_string
read_item-item_to_string ([], v) m h = absurd h
read_item-item_to_string (c ∷ k, v) m (bk, bv) =
    (rw
      (
        split_at-item (c ∷ k) v bk bv,
        key_value-url_encode c k (url_encode false v),
        url_decode-url_encode false (c ∷ k) bk,
        url_decode-url_encode false v bv,
      )
      refl)

-- The keys of a map ascend.
abbrev pub IsFirst : List ℕ → StringMap → Type 0
IsFirst k [] = Unit {0}
IsFirst k ((k', v) ∷ m) = (less k k' ≡ true) × (less k' k ≡ false) × IsFirst k m

abbrev pub IsMap : StringMap → Type 0
IsMap [] = Unit {0}
IsMap ((k, v) ∷ m) = IsItem (k, v) × IsFirst k m × IsMap m

IsFirst-at :
    (k : List ℕ) (m : StringMap) (k' v : List ℕ) (later : StringMap)
    → IsFirst k (m ++ ((k', v) ∷ later))
    → (less k k' ≡ true) × (less k' k ≡ false)
IsFirst-at k [] k' v later (a, b, h) = (a, b)
IsFirst-at k ((k1, v1) ∷ m) k' v later (a, b, h) = IsFirst-at k m k' v later h

-- A key that follows all the others is put last.
assign-last :
    (m : StringMap) (k v : List ℕ) (later : StringMap)
    → IsMap (m ++ ((k, v) ∷ later))
    → assign k v m ≡ m ++ ((k, v) ∷ [])
unfolding assign
assign-last [] k v later h = refl
assign-last ((k1, v1) ∷ m) k v later (i, f, h) =
    let (a, b) = IsFirst-at k1 m k v later f in (rw (b, a, assign-last m k v later h) refl)

IsItem-at :
    (m : StringMap) (item : List ℕ × List ℕ) (later : StringMap)
    → IsMap (m ++ (item ∷ later))
    → IsItem item
IsItem-at [] (k, v) later (i, f, h) = i
IsItem-at ((k, v) ∷ m) item later (i, f, h) = IsItem-at m item later h

pub read_items-map :
    (m later : StringMap)
    → IsMap (m ++ later)
    → read_items (map item_to_string later) m ≡ some (m ++ later)
unfolding read_items
read_items-map m [] h = ap some (sym (append-nil m))
read_items-map m ((k, v) ∷ later) h =
    ap (λ o. o >>= λ m'. read_items (map item_to_string later) m')
      (read_item-item_to_string (k, v) m (IsItem-at m (k, v) later h))
    ∙ (ap (read_items (map item_to_string later)) (assign-last m k v later h)
        ∙ (read_items-map (m ++ ((k, v) ∷ [])) later
              (subst IsMap (sym (append_assoc m ((k, v) ∷ []) later)) h)
            ∙ ap some (append_assoc m ((k, v) ∷ []) later)))
