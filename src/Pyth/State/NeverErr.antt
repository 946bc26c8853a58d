-- ===== src/Pyth/State/NeverErr.antt =====
-- Reading and writing the structs of pyth/src/state.rs never returns an error: what goes wrong is a
-- panic.
use solarium.Base.{
  ℕ, List, [], ◌∷◌, unwrap, NeverErr, NeverErr-ok, NeverErr-panic, NeverErr-unwrap, NeverErr-bind,
}
use solarium.Pyth.Types.{Result, PriceInfo, Ema, Price}
use solarium.Pyth.Bytes.{from_le_bytes}
use solarium.Pyth.Crates.{Crates}
use solarium.Pyth.Pack.Fields.{read_fields, write_fields}
use solarium.Pyth.State.PriceInfo
use solarium.Pyth.State.Ema
use solarium.Pyth.State.Price

module _ (c : Crates) where
  pub read_fields-NeverErr :
      {A : Type 0} (len : ℕ) (ws : List ℕ) (fields : List (List ℕ) → Result A) (src : List ℕ)
      → ((ps : List (List ℕ)) → NeverErr (fields ps))
      → NeverErr (read_fields c len ws fields src)
  unfolding read_fields
  read_fields-NeverErr len ws fields src n =
      NeverErr-bind (unwrap (c.array_ref src 0 len)) _ (NeverErr-unwrap (c.array_ref src 0 len))
        λ array. n (c.array_refs array ws)

  pub write_fields-NeverErr :
      (len : ℕ) (ws : List ℕ) (fields : List (List ℕ) → Result (List (List ℕ))) (dst : List ℕ)
      → ((ps : List (List ℕ)) → NeverErr (fields ps))
      → NeverErr (write_fields c len ws fields dst)
  unfolding write_fields
  write_fields-NeverErr len ws fields dst n =
      NeverErr-bind (unwrap (c.array_mut_ref dst 0 len)) _
        (NeverErr-unwrap (c.array_mut_ref dst 0 len))
        λ view.
          NeverErr-bind (fields (c.mut_array_refs view.0 ws).0) _ (n (c.mut_array_refs view.0 ws).0)
            λ pieces. NeverErr-ok _

  price_info_read : (ps : List (List ℕ)) → NeverErr (PriceInfo.read c ps)
  unfolding PriceInfo.read
  price_info_read (price ∷ conf ∷ status ∷ corp_act ∷ pub_slot ∷ []) =
      NeverErr-bind (unwrap (c.status.try_from_primitive (from_le_bytes status))) _
        (NeverErr-unwrap _)
        λ status.
          NeverErr-bind (unwrap (c.corp_act.try_from_primitive (from_le_bytes corp_act))) _
            (NeverErr-unwrap _) λ corp_act. NeverErr-ok _
  price_info_read _ = NeverErr-panic

  price_info_write : (i : PriceInfo) (ps : List (List ℕ)) → NeverErr (PriceInfo.write c i ps)
  unfolding PriceInfo.write
  price_info_write i (price ∷ conf ∷ status ∷ corp_act ∷ pub_slot ∷ []) = NeverErr-ok _
  price_info_write i _ = NeverErr-panic

  ema_read : (ps : List (List ℕ)) → NeverErr (Ema.read ps)
  unfolding Ema.read
  ema_read (val ∷ numer ∷ denom ∷ []) = NeverErr-ok _
  ema_read _ = NeverErr-panic

  ema_write : (m : Ema) (ps : List (List ℕ)) → NeverErr (Ema.write m ps)
  unfolding Ema.write
  ema_write m (val ∷ numer ∷ denom ∷ []) = NeverErr-ok _
  ema_write m _ = NeverErr-panic

  price_info-unpack : (src : List ℕ) → NeverErr (PriceInfo.unpack_from_slice c src)
  unfolding PriceInfo.unpack_from_slice
  price_info-unpack src = read_fields-NeverErr _ _ _ src price_info_read

  price_info-pack : (i : PriceInfo) (dst : List ℕ) → NeverErr (PriceInfo.pack_into_slice c i dst)
  unfolding PriceInfo.pack_into_slice
  price_info-pack i dst = write_fields-NeverErr _ _ _ dst (price_info_write i)

  ema-unpack : (src : List ℕ) → NeverErr (Ema.unpack_from_slice c src)
  unfolding Ema.unpack_from_slice
  ema-unpack src = read_fields-NeverErr _ _ _ src ema_read

  ema-pack : (m : Ema) (dst : List ℕ) → NeverErr (Ema.pack_into_slice c m dst)
  unfolding Ema.pack_into_slice
  ema-pack m dst = write_fields-NeverErr _ _ _ dst (ema_write m)

  price_read : (ps : List (List ℕ)) → NeverErr (Price.read c ps)
  unfolding Price.read
  price_read
        (magic ∷ ver ∷ atype ∷ size ∷ ptype ∷ expo ∷ num ∷ num_qt ∷ last_slot ∷ valid_slot ∷ twap
          ∷ twac ∷ drv1 ∷ drv2 ∷ prod ∷ next ∷ prev_slot ∷ prev_price ∷ prev_conf ∷ drv3 ∷ agg
          ∷ []) =
      NeverErr-bind (unwrap (c.ptype.try_from_primitive (from_le_bytes ptype))) _
        (NeverErr-unwrap _)
        λ ptype. NeverErr-bind (Ema.unpack_from_slice c twap) _ (ema-unpack twap) λ twap.
          NeverErr-bind (Ema.unpack_from_slice c twac) _ (ema-unpack twac) λ twac.
            NeverErr-bind (PriceInfo.unpack_from_slice c agg) _ (price_info-unpack agg)
              λ agg. NeverErr-ok _
  price_read _ = NeverErr-panic

  price_write : (p : Price) (ps : List (List ℕ)) → NeverErr (Price.write c p ps)
  unfolding Price.write
  price_write p
        (magic ∷ ver ∷ atype ∷ size ∷ ptype ∷ expo ∷ num ∷ num_qt ∷ last_slot ∷ valid_slot ∷ twap
          ∷ twac ∷ drv1 ∷ drv2 ∷ prod ∷ next ∷ prev_slot ∷ prev_price ∷ prev_conf ∷ drv3 ∷ agg
          ∷ []) =
      NeverErr-bind (Ema.pack_into_slice c p.twap twap) _ (ema-pack p.twap twap) λ twap.
        NeverErr-bind (Ema.pack_into_slice c p.twac twac) _ (ema-pack p.twac twac) λ twac.
          NeverErr-bind (PriceInfo.pack_into_slice c p.agg agg) _ (price_info-pack p.agg agg)
            λ agg. NeverErr-ok _
  price_write p _ = NeverErr-panic

  pub price-unpack : (src : List ℕ) → NeverErr (Price.unpack_from_slice c src)
  unfolding Price.unpack_from_slice
  price-unpack src = read_fields-NeverErr _ _ _ src price_read

  pub price-pack : (p : Price) (dst : List ℕ) → NeverErr (Price.pack_into_slice c p dst)
  unfolding Price.pack_into_slice
  price-pack p dst = write_fields-NeverErr _ _ _ dst (price_write p)
