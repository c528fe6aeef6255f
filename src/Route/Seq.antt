-- ===== src/Route/Seq.antt =====
-- The sequence numbers of a flow.
use ne.Route.Number.{bump_seq, fetch_seq, next_udp_tx_seq}
use ne.Base.{
  fun_ext, ℕ, zero, suc, ◌+◌, ◌≡◌, refl, ap, ◌∙◌, inl, inr, Bool, true, ◌&&◌, Option, some, arith,
  ◌==◌, if◌then◌else◌, ==_iff, Bool-cases, u32, Mem,
}
use ne.Flow.{RouteKey, key_parse_direction}
use ne.Route.{Entry, State, find_way, set_of, route_ways}

-- A way is found again when its entry changes but for the key.
find_way-update :
    (left way : ℕ) (set : ℕ → Entry) (key : RouteKey) (w : ℕ) (e : Entry)
    → find_way left way set key ≡ some w
    → e.key ≡ (set w).key
    → e.valid ≡ (set w).valid
    → find_way left way (λ j. if j == w then e else set j) key ≡ some w
unfolding find_way
find_way-update zero way set key w e f k v = ground arith
find_way-update (suc left) way set key w e f k v =
    ground (arith, find_way-update left (way + 1) set key w e)

module _ (st : State) (pkt : Mem) (len : ℕ) (key : RouteKey) (d : ℕ)
    (parsed : key_parse_direction pkt len ≡ some (key, d)) (is_udp : key.protocol ≡ 17) where
  next-found :
      (way : ℕ)
      → find_way route_ways 0 (st.table (set_of key)) key ≡ some way
      → next_udp_tx_seq st pkt len ≡ ((fetch_seq st key d way).0, some (fetch_seq st key d way).1)
  unfolding next_udp_tx_seq
  next-found way f = ground (arith, parsed, f)

-- The set of the flow after a number has been fetched.
set-fetch :
    (st : State) (key : RouteKey) (d way : ℕ)
    → (fetch_seq st key d way).0.table (set_of key)
      ≡ (λ j. if j == way then bump_seq (st.table (set_of key) way) d else st.table (set_of key) j)
set-fetch st key d way = fun_ext λ j.
    let here : set_of key == set_of key ≡ true = ground arith in
    ap
      (λ (b : Bool).
        if b && j == way then bump_seq (st.table (set_of key) way) d else st.table (set_of key) j)
      here

entry-fetch :
    (st : State) (key : RouteKey) (d way : ℕ)
    → (fetch_seq st key d way).0.table (set_of key) way ≡ bump_seq (st.table (set_of key) way) d
entry-fetch st key d way =
    let same : way == way ≡ true = ground arith in
    ap (λ f. f way) (set-fetch st key d way)
    ∙ ap
        (λ (b : Bool).
          if b then bump_seq (st.table (set_of key) way) d else st.table (set_of key) way)
        same

found-fetch :
    (st : State) (key : RouteKey) (d way : ℕ)
    → find_way route_ways 0 (st.table (set_of key)) key ≡ some way
    → find_way route_ways 0 ((fetch_seq st key d way).0.table (set_of key)) key ≡ some way
found-fetch st key d way f =
    ap (λ set. find_way route_ways 0 set key) (set-fetch st key d way)
    ∙ find_way-update route_ways 0 (st.table (set_of key)) key way
        (bump_seq (st.table (set_of key) way) d) f refl refl

-- Two UDP packets of one flow that is in the table: the second, if it goes the same way, has the
-- next number, modulo 2 ^ 32; if it goes the other way, the number that it would have had without
-- the first.
pub next_udp_tx_seq_lem :
    (st : State) (pkt : Mem) (len : ℕ) (pkt' : Mem) (len' : ℕ) (key : RouteKey) (d d' way : ℕ)
    → key_parse_direction pkt len ≡ some (key, d)
    → key_parse_direction pkt' len' ≡ some (key, d')
    → key.protocol ≡ 17
    → find_way route_ways 0 (st.table (set_of key)) key ≡ some way
    → (n m : ℕ) × ((next_udp_tx_seq st pkt len).1 ≡ some n)
      × ((next_udp_tx_seq st pkt' len').1 ≡ some m)
      × ((next_udp_tx_seq (next_udp_tx_seq st pkt len).0 pkt' len').1
          ≡ some (if d' == d then u32 (n + 1) else m))
next_udp_tx_seq_lem st pkt len pkt' len' key d d' way p p' u f =
    let first = next-found st pkt len key d p u way f in
    let other = next-found st pkt' len' key d' p' u way f in
    let st1 = (fetch_seq st key d way).0 in
    let then_next = next-found st1 pkt' len' key d' p' u way (found-fetch st key d way f) in
    let seq = (st.table (set_of key) way).udp_tx_seq in
    let value : u32 ((bump_seq (st.table (set_of key) way) d).udp_tx_seq d')
        ≡ (if d' == d then u32 (u32 (seq d) + 1) else u32 (seq d')) =
      elim (Bool-cases (d' == d)) [
        | inl same ↦ let e : d' ≡ d = (==_iff d' d).0 same in rw (same, e) (omega arith)
        | inr differ ↦ rw differ refl
      ] in
    (
      u32 (seq d),
      u32 (seq d'),
      ap (λ (r : State × Option ℕ). r.1) first,
      ap (λ (r : State × Option ℕ). r.1) other,
      ap (λ (r : State × Option ℕ). (next_udp_tx_seq r.0 pkt' len').1) first
          ∙ ap (λ (r : State × Option ℕ). r.1) then_next
          ∙ ap (λ e. some (u32 (e.udp_tx_seq d'))) (entry-fetch st key d way)
          ∙ ap (λ x. some x) value,
    )
