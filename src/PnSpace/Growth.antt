-- ===== src/PnSpace/Growth.antt =====
-- Growth of the map by `quic_pnspace_grow`.
use quic.Prelude.{
  ℕ, ◌+◌, ◌-◌, ◌≤◌, ◌<◌, ◌≡◌, refl, sym, ◌∙◌, Bool, true, false, List, ◌++◌, length, take,
  replicate, arith,
}
use quic.Prelude.Result.{ok}
use quic.PnSpace.{PnSpace, test_bit, u16_diff, grow_len, pnspace_grow, pn_map_size}
use quic.PnSpace.Invariant.{IsValid, seen, seen_at, seen-at, u16_diff-eq}
use quic.PnSpace.Bitmap.{test_bit-grown, length-grown}

grow_len_bounds :
    (map_len gap : ℕ)
    → map_len ≤ gap
    → gap < pn_map_size
    → (gap < grow_len (gap + 1) map_len)
      × (map_len ≤ grow_len (gap + 1) map_len)
      × (grow_len (gap + 1) map_len ≤ pn_map_size)
unfolding grow_len
grow_len_bounds map_len gap short small = ground arith

abbrev grown_map : PnSpace → ℕ → ℕ → List Bool
grown_map s b size = take (grow_len size (length s.pn_map)) (
    take (u16_diff (s.max_pn_seen + 1) b) s.pn_map
    ++ replicate (grow_len size (length s.pn_map)) false)

-- Growth by `quic_pnspace_grow` for a number that the map does not reach yet.
module _ (s : PnSpace) (b gap : ℕ) (v : IsValid s b) (short : length s.pn_map ≤ gap)
    (small : gap < pn_map_size) where
  pub grown : PnSpace
  grown = record s { pn_map = grown_map s b (gap + 1) }

  pub grow-eq : pnspace_grow true s b (gap + 1) ≡ ok grown
  unfolding pnspace_grow grown
  grow-eq = ground arith

  length-grown_map : length (grown_map s b (gap + 1)) ≡ grow_len (gap + 1) (length s.pn_map)
  length-grown_map = length-grown s.pn_map _ _

  test_bit-grown_map : (i : ℕ) → test_bit (grown_map s b (gap + 1)) i ≡ test_bit s.pn_map i
  test_bit-grown_map i =
      test_bit-grown s.pn_map _ _ i
        (λ j h. v.clear j (
          omega (
            arith,
            v.top,
            v.reach,
            v.fits,
            u16_diff-eq (s.max_pn_seen + 1) b v.top (omega (arith, v.reach, v.fits)),
          )))
        (grow_len_bounds (length s.pn_map) gap short small).1

  pub grow-IsValid : IsValid grown b
  unfolding grown
  grow-IsValid =
      let (enough, keeps, fits) = grow_len_bounds (length s.pn_map) gap short small in
      record {
        based = v.based;
        fits = rw length-grown_map fits;
        reach = omega (arith, v.reach, length-grown_map);
        top = v.top;
        clear = λ i h. test_bit-grown_map i ∙ v.clear i h;
        first = test_bit-grown_map 0 ∙ v.first;
        last = v.last;
      }

  pub grow-reaches : gap < length grown.pn_map
  unfolding grown
  grow-reaches = rw length-grown_map (grow_len_bounds (length s.pn_map) gap short small).0

  pub seen_at-grow : (q : ℕ) → seen_at b grown.pn_map q ≡ seen_at b s.pn_map q
  unfolding seen_at grown
  seen_at-grow q = rw (test_bit-grown_map (q - b))

  pub fields-grown :
      (grown.min_pn_seen ≡ s.min_pn_seen)
      × (grown.last_max_pn_seen ≡ s.last_max_pn_seen)
      × (grown.max_pn_seen ≡ s.max_pn_seen)
  unfolding grown
  fields-grown = (refl, refl, refl)

  pub seen-grown : (q : ℕ) → seen grown q ≡ seen s q
  seen-grown q = seen-at grown b q grow-IsValid.based ∙ seen_at-grow q ∙ sym (seen-at s b q v.based)
