-- ===== src/Pyth/Processor/CreatePriceAccount/Laws.antt =====
-- What pyth/src/processor/create_price_account.rs leaves in the account: a `Price` that
-- `Price::unpack_from_slice` reads, followed by zeros up to byte 3312.
use solarium.Base.{
  ℕ, ◌+◌, ◌≤◌, ◌≡◌, sym, ap, ◌∙◌, List, [], ◌∷◌, ◌++◌, append_assoc, length, take, drop,
  length-take, length-drop, take-append-drop, drop-add, ok, bind-ok, arith,
}
use solarium.Base.Int.{pos}
use solarium.Pyth.Bytes.{to_le_bytes, signed_to_le_bytes, to_bits, zeros}
use solarium.Pyth.Bytes.RoundTrip.{length-to_le_bytes, length-signed_to_le_bytes}
use solarium.Pyth.Bytes.Pieces.{sum, prepend, prepend-append, HasWidths, HasWidths-take, ◌&◌}
use solarium.Pyth.Bytes.Slices.{length-zeros, zeros-add}
use solarium.Pyth.State.Price
use solarium.Pyth.Processor.CreatePriceAccount.{PythClient, store_bytes, initialize}
use solarium.Pyth.Processor.CreatePriceAccount.Initial.{PythClientLaws, initial}
use solarium.Pyth.Processor.CreatePriceAccount.Loops.{store_bytes_behind, store_zeros_behind}

module _ (client : PythClient) where
  abbrev magic_bytes : List ℕ
  magic_bytes = to_le_bytes 4 client.magic

  abbrev version_bytes : List ℕ
  version_bytes = to_le_bytes 4 client.version_2

  abbrev type_bytes : List ℕ
  type_bytes = to_le_bytes 4 client.account_type_price

  abbrev gap : List ℕ
  gap = zeros 196

  abbrev price_bytes : List ℕ
  price_bytes = signed_to_le_bytes 8 (pos 0)

  abbrev conf_bytes : List ℕ
  conf_bytes = to_le_bytes 8 100

  abbrev status_bytes : List ℕ
  status_bytes = to_le_bytes 4 client.status_trading

  abbrev corp_act_bytes : List ℕ
  corp_act_bytes = to_le_bytes 4 client.no_corp_act

  abbrev slot_bytes : List ℕ
  slot_bytes = to_le_bytes 8 0

  header : List (List ℕ)
  header =
      to_le_bytes 4 client.magic
      ∷ to_le_bytes 4 client.version_2
      ∷ to_le_bytes 4 client.account_type_price
      ∷ []

  -- The fields of the aggregate price, as the last five loops write them.
  aggregate : List (List ℕ)
  aggregate =
      signed_to_le_bytes 8 (pos 0)
      ∷ to_le_bytes 8 100
      ∷ to_le_bytes 4 client.status_trading
      ∷ to_le_bytes 4 client.no_corp_act
      ∷ to_le_bytes 8 0
      ∷ []

  layout-initial :
      PythClientLaws client
      → Price.layout (initial client) ≡ prepend header (zeros 196 ++ prepend aggregate [])
  unfolding header aggregate to_le_bytes signed_to_le_bytes to_bits zeros
  layout-initial L = rw (L.status_trading, L.no_corp_act)

  behind_layout :
      PythClientLaws client
      → (rest : List ℕ)
      → prepend header (gap ++ prepend aggregate rest) ≡ Price.layout (initial client) ++ rest
  behind_layout L rest =
      ap (λ l. prepend header (gap ++ l)) (prepend-append aggregate [] rest)
      ∙ ap (prepend header) (sym (append_assoc gap (prepend aggregate []) rest))
      ∙ prepend-append header (gap ++ prepend aggregate []) rest
      ∙ ap (λ l. l ++ rest) (sym (layout-initial L))

  split_zeros : (m n : ℕ) (rest : List ℕ) → zeros (m + n) ++ rest ≡ zeros m ++ (zeros n ++ rest)
  split_zeros m n rest = ap (λ l. l ++ rest) (zeros-add m n) ∙ append_assoc (zeros m) (zeros n) rest

  -- The zeros behind the header, cut where the later loops write.
  cut_zeros :
      (post : List ℕ)
      → zeros 3300 ++ post
        ≡ zeros 196
          ++ (zeros 8 ++ (zeros 8 ++ (zeros 4 ++ (zeros 4 ++ (zeros 8 ++ (zeros 3072 ++ post))))))
  cut_zeros post =
      split_zeros 196 3104 post
      ∙ ap (λ l. zeros 196 ++ l)
          (split_zeros 8 3096 post
            ∙ ap (λ l. zeros 8 ++ l)
                (split_zeros 8 3088 post
                  ∙ ap (λ l. zeros 8 ++ l)
                      (split_zeros 4 3084 post
                        ∙ ap (λ l. zeros 4 ++ l)
                            (split_zeros 4 3080 post
                              ∙ ap (λ l. zeros 4 ++ l) (split_zeros 8 3072 post)))))

  -- What the loops write, in the order in which it stands in the buffer.
  abbrev fields : List (List ℕ)
  fields =
      magic_bytes ∷ version_bytes ∷ type_bytes ∷ gap ∷ price_bytes ∷ conf_bytes ∷ status_bytes
      ∷ corp_act_bytes ∷ []

  abbrev widths : List ℕ
  widths = 4 ∷ 4 ∷ 4 ∷ 196 ∷ 8 ∷ 8 ∷ 4 ∷ 4 ∷ []

  fields-HasWidths : HasWidths widths fields
  fields-HasWidths =
      length-to_le_bytes 4 client.magic
      & length-to_le_bytes 4 client.version_2
      & length-to_le_bytes 4 client.account_type_price
      & length-zeros 196
      & length-signed_to_le_bytes 8 (pos 0)
      & length-to_le_bytes 8 100
      & length-to_le_bytes 4 client.status_trading
      & length-to_le_bytes 4 client.no_corp_act
      & tt

  module _ {ℓ} {E : Type ℓ} (done : ℕ) where
    -- The loop behind the first `done` fields.
    store_field :
        (n : ℕ) (old post bytes : List ℕ)
        → length old ≡ n
        → length bytes ≡ n
        → store_bytes {E = E} n
            (sum (take done widths))
            (sum (take done widths))
            bytes
            (prepend (take done fields) (old ++ post))
          ≡ ok (prepend (take done fields) (bytes ++ post))
    store_field n old post bytes room =
        store_bytes_behind (take done widths) (take done fields)
          (HasWidths-take done widths fields fields-HasWidths) n old post room bytes

    -- The same over zeros.
    store_over :
        (n : ℕ) (post bytes : List ℕ)
        → length bytes ≡ n
        → store_bytes {E = E} n
            (sum (take done widths))
            (sum (take done widths))
            bytes
            (prepend (take done fields) (zeros n ++ post))
          ≡ ok (prepend (take done fields) (bytes ++ post))
    store_over n post bytes = store_field n (zeros n) post bytes (length-zeros n)

  module _ (h0 h1 h2 z post : List ℕ) (w0 : length h0 ≡ 4) (w1 : length h1 ≡ 4) (w2 : length h2 ≡ 4)
      (wz : length z ≡ 3300) where
    abbrev behind : List ℕ
    behind = zeros 3072 ++ post

    initialize_parts {ℓ} :
        {E : Type ℓ}
        → initialize client {E = E} (h0 ++ (h1 ++ (h2 ++ (z ++ post))))
          ≡ ok (prepend header (zeros 196 ++ prepend aggregate (zeros 3072 ++ post)))
    unfolding initialize header aggregate
    initialize_parts =
        bind-ok _
          (store_field 0 4 h0 (h1 ++ (h2 ++ (z ++ post))) magic_bytes w0
            (length-to_le_bytes 4 client.magic))
          (bind-ok _
            (store_field 1 4 h1 (h2 ++ (z ++ post)) version_bytes w1
              (length-to_le_bytes 4 client.version_2))
            (bind-ok _
              (store_field 2 4 h2 (z ++ post) type_bytes w2
                (length-to_le_bytes 4 client.account_type_price))
              (bind-ok _
                (store_zeros_behind (take 3 widths) (take 3 fields)
                    (HasWidths-take 3 widths fields fields-HasWidths) 3300 z post wz
                  ∙ ap (λ l. ok (prepend (take 3 fields) l)) (cut_zeros post))
                (bind-ok _
                  (store_over 4 8 (zeros 8 ++ (zeros 4 ++ (zeros 4 ++ (zeros 8 ++ behind))))
                    price_bytes (length-signed_to_le_bytes 8 (pos 0)))
                  (bind-ok _
                    (store_over 5 8 (zeros 4 ++ (zeros 4 ++ (zeros 8 ++ behind))) conf_bytes
                      (length-to_le_bytes 8 100))
                    (bind-ok _
                      (store_over 6 4 (zeros 4 ++ (zeros 8 ++ behind)) status_bytes
                        (length-to_le_bytes 4 client.status_trading))
                      (bind-ok _
                        (store_over 7 4 (zeros 8 ++ behind) corp_act_bytes
                          (length-to_le_bytes 4 client.no_corp_act))
                        (store_over 8 8 behind slot_bytes (length-to_le_bytes 8 0)))))))))

  -- On a buffer of 3312 bytes or more, the account begins with the layout of the initial price, then
  -- come zeros up to byte 3312, and what lies behind is kept.
  pub initialize_lem {ℓ} :
      {E : Type ℓ} (buffer : List ℕ)
      → PythClientLaws client
      → 3312 ≤ length buffer
      → initialize client {E = E} buffer
        ≡ ok (Price.layout (initial client) ++ (zeros 3072 ++ drop 3312 buffer))
  unfolding header aggregate
  initialize_lem buffer L h =
      ap (initialize client) cut
      ∙ initialize_parts (take 4 buffer) (take 4 b1) (take 4 b2) (take 3300 b3) (drop 3300 b3)
          (omega (arith, length-take 4 buffer))
          (omega (arith, length-take 4 b1, length-drop 4 buffer))
          (omega (arith, length-take 4 b2, length-drop 4 b1, length-drop 4 buffer))
          (omega
            (arith, length-take 3300 b3, length-drop 4 b2, length-drop 4 b1, length-drop 4 buffer))
      ∙ ap ok (
          behind_layout L (zeros 3072 ++ drop 3300 b3)
          ∙ ap (λ l. Price.layout (initial client) ++ (zeros 3072 ++ l)) tail)
    where
      b1 : List ℕ
      b1 = drop 4 buffer

      b2 : List ℕ
      b2 = drop 4 b1

      b3 : List ℕ
      b3 = drop 4 b2

      cut : buffer ≡ take 4 buffer ++ (take 4 b1 ++ (take 4 b2 ++ (take 3300 b3 ++ drop 3300 b3)))
      cut =
          sym (take-append-drop 4 buffer)
          ∙ ap (λ l. take 4 buffer ++ l)
              (sym (take-append-drop 4 b1)
                ∙ ap (λ l. take 4 b1 ++ l)
                    (sym (take-append-drop 4 b2)
                      ∙ ap (λ l. take 4 b2 ++ l) (sym (take-append-drop 3300 b3))))

      tail : drop 3300 b3 ≡ drop 3312 buffer
      tail = sym (drop-add 4 3300 b2) ∙ sym (drop-add 4 3304 b1) ∙ sym (drop-add 4 3308 buffer)
