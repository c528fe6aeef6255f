-- ===== src/Route/Sticky.antt =====
-- The route of a flow from one packet to the next.
use ne.Route.Assign.{choose_worker, get_key, insert}
use ne.Base.{
  Bool, ==_iff, Bool-cases, refl, ap, sym, ◌∙◌, arith, u8, fun_ext, inl, ◌<◌, inr, Option,
  Option-cases, ℕ, zero, suc, ◌+◌, ◌≤◌, ◌≡◌, true, false, none, some, ◌==◌, if◌then◌else◌,
}
use ne.Route.{
  least_loaded, crypto_workers, route_of, tx_slots, set_of, FlowRoute, route_ways, active_tx_slots,
  State, Entry, find_way, find_empty,
}
use ne.Flow.{key_hash, hash_to_n, RouteKey, key_equal}
use ne.Flow.Key.{key_equal_sound, key_equal_refl}
use ne.Route.Balance.{choose_worker-<, least_loaded-<}

abbrev with_entry : (ℕ → Entry) → ℕ → Entry → (ℕ → Entry)
with_entry set w e j = if j == w then e else set j

find_empty-from :
    (left way : ℕ) (set : ℕ → Entry) (w : ℕ) → find_empty left way set ≡ some w → way ≤ w
unfolding find_empty
find_empty-from zero way set w f = ground arith
find_empty-from (suc left) way set w f = ground (arith, find_empty-from left (way + 1) set w)

-- The first free way is found once it holds the key, if no other way did.
find_way-insert :
    (left way : ℕ) (set : ℕ → Entry) (key : RouteKey) (w : ℕ) (e : Entry)
    → find_way left way set key ≡ none
    → find_empty left way set ≡ some w
    → e.valid ≡ true
    → key_equal e.key key ≡ true
    → find_way left way (with_entry set w e) key ≡ some w
unfolding find_way find_empty
find_way-insert zero way set key w e n f v k = ground arith
find_way-insert (suc left) way set key w e n f v k =
    ground (arith, find_way-insert left (way + 1) set key w e, find_empty-from left (way + 1) set w)

-- A way that is found is found when a free one is filled with another key.
find_way-keep :
    (left way : ℕ) (set : ℕ → Entry) (key : RouteKey) (w j : ℕ) (e : Entry)
    → find_way left way set key ≡ some j
    → (set w).valid ≡ false
    → key_equal e.key key ≡ false
    → find_way left way (with_entry set w e) key ≡ some j
unfolding find_way
find_way-keep zero way set key w j e f v k = ground arith
find_way-keep (suc left) way set key w j e f v k =
    ground (arith, find_way-keep left (way + 1) set key w j e)

find_empty-free :
    (left way : ℕ) (set : ℕ → Entry) (w : ℕ)
    → find_empty left way set ≡ some w
    → (set w).valid ≡ false
unfolding find_empty
find_empty-free zero way set w f = ground arith
find_empty-free (suc left) way set w f = ground (arith, find_empty-free left (way + 1) set w)

-- The route of a flow that has an entry.
abbrev pub lookup_set : (ℕ → Entry) → RouteKey → Option FlowRoute
lookup_set set key = elim (find_way route_ways 0 set key) [
  | none ↦ none
  | some way ↦ some (route_of (set way))
]

abbrev pub lookup : State → RouteKey → Option FlowRoute
lookup st key = lookup_set (st.table (set_of key)) key

-- What the two searches say of a set.
data Found (set : ℕ → Entry) (key : RouteKey) : Type 0 where
  known : (way : ℕ) → find_way route_ways 0 set key ≡ some way → Found set key
  full : find_way route_ways 0 set key ≡ none → find_empty route_ways 0 set ≡ none → Found set key
  free :
      (way : ℕ)
      → find_way route_ways 0 set key ≡ none
      → find_empty route_ways 0 set ≡ some way
      → Found set key

search_set : (set : ℕ → Entry) (key : RouteKey) → Found set key
search_set set key = elim (Option-cases (find_way route_ways 0 set key)) [
  | inr (way, f) ↦ known way f
  | inl n ↦ elim (Option-cases (find_empty route_ways 0 set)) [
    | inr (way, e) ↦ free way n e
    | inl e ↦ full n e
  ]
]

module _ (st : State) (key : RouteKey) (hint : Option ℕ) where
  get_key-known :
      (way : ℕ)
      → find_way route_ways 0 (st.table (set_of key)) key ≡ some way
      → get_key st key hint ≡ (st, route_of (st.table (set_of key) way))
  unfolding get_key
  get_key-known way f = ground arith

  get_key-full :
      find_way route_ways 0 (st.table (set_of key)) key ≡ none
      → find_empty route_ways 0 (st.table (set_of key)) ≡ none
      → get_key st key hint ≡ (
        st,
        record {
          worker_idx = hash_to_n (key_hash key) crypto_workers;
          tx_slot = hash_to_n (key_hash key) (active_tx_slots st);
        },
      )
  unfolding get_key
  get_key-full f e = ground arith

  get_key-free :
      (way : ℕ)
      → find_way route_ways 0 (st.table (set_of key)) key ≡ none
      → find_empty route_ways 0 (st.table (set_of key)) ≡ some way
      → get_key st key hint ≡ insert st key hint way
  unfolding get_key
  get_key-free way f e = ground arith

active-< : (st : State) → (0 < active_tx_slots st) × (active_tx_slots st ≤ tx_slots)
unfolding active_tx_slots
active-< st = ground arith

-- The entry that an insertion makes.
new_entry : State → RouteKey → Option ℕ → Entry
new_entry st key hint = record {
  key = key;
  udp_tx_seq = λ d. 0;
  worker_idx = u8 (choose_worker st hint).1;
  tx_slot = u8 (least_loaded st.tx_count (active_tx_slots st) st.tx_rr);
  valid = true;
}

table-choose_worker : (st : State) (hint : Option ℕ) → (choose_worker st hint).0.table ≡ st.table
unfolding choose_worker
table-choose_worker st none = refl
table-choose_worker st (some w) = ground arith

set-insert :
    (st : State) (key : RouteKey) (hint : Option ℕ) (way i : ℕ)
    → (insert st key hint way).0.table i ≡ (
        if i == set_of key then with_entry (st.table i) way (new_entry st key hint) else st.table i)
unfolding insert new_entry
set-insert st key hint way i = fun_ext λ j. ground (arith, table-choose_worker st hint)

route-insert :
    (st : State) (key : RouteKey) (hint : Option ℕ) (way : ℕ)
    → (insert st key hint way).1 ≡ route_of (new_entry st key hint)
unfolding insert new_entry
route-insert st key hint way = ground (
  arith,
  choose_worker-< st hint,
  least_loaded-< st.tx_count (active_tx_slots st) st.tx_rr (active-< st).0,
  active-< st,
)

found-insert :
    (st : State) (key : RouteKey) (hint : Option ℕ) (way : ℕ)
    → find_way route_ways 0 (st.table (set_of key)) key ≡ none
    → find_empty route_ways 0 (st.table (set_of key)) ≡ some way
    → find_way route_ways 0 ((insert st key hint way).0.table (set_of key)) key ≡ some way
unfolding new_entry
found-insert st key hint way f e =
    let same : set_of key == set_of key ≡ true = ground arith in
    ap (λ set. find_way route_ways 0 set key) (set-insert st key hint way (set_of key))
    ∙ rw same (
        find_way-insert route_ways 0 (st.table (set_of key)) key way (new_entry st key hint) f e
          refl (key_equal_refl key))

entry-insert :
    (st : State) (key : RouteKey) (hint : Option ℕ) (way : ℕ)
    → (insert st key hint way).0.table (set_of key) way ≡ new_entry st key hint
entry-insert st key hint way =
    ap (λ set. set way) (set-insert st key hint way (set_of key)) ∙ ground arith

-- Once a flow has been given a route, it has that route again, whatever the hint, and the table
-- stays as it is; also when its set is full and the route is the hashed one.
pub get_key-again :
    (st : State) (key : RouteKey) (hint hint' : Option ℕ)
    → get_key (get_key st key hint).0 key hint' ≡ get_key st key hint
get_key-again st key hint hint' = elim (search_set (st.table (set_of key)) key) [
  | known way f ↦
      let e = get_key-known st key hint way f in
      ap (λ (p : State × FlowRoute). get_key p.0 key hint') e
      ∙ get_key-known st key hint' way f
      ∙ sym e
  | full f n ↦
      let e = get_key-full st key hint f n in
      ap (λ (p : State × FlowRoute). get_key p.0 key hint') e
      ∙ get_key-full st key hint' f n
      ∙ sym e
  | free way f n ↦
      let e = get_key-free st key hint way f n in
      let st' = (insert st key hint way).0 in
      ap (λ (p : State × FlowRoute). get_key p.0 key hint') e
      ∙ get_key-known st' key hint' way (found-insert st key hint way f n)
      ∙ ap (λ x. (st', route_of x)) (entry-insert st key hint way)
      ∙ ap (λ x. (st', x)) (sym (route-insert st key hint way))
      ∙ sym e
]

-- With no way for the one key and a way for another in a set, the keys differ.
keys-differ :
    (set : ℕ → Entry) (key other : RouteKey) (j : ℕ)
    → find_way route_ways 0 set key ≡ none
    → find_way route_ways 0 set other ≡ some j
    → key_equal key other ≡ false
keys-differ set key other j n f = elim (Bool-cases (key_equal key other)) [
  | inr differ ↦ differ
  | inl agree ↦
      let e = ap (λ k. find_way route_ways 0 set k) (key_equal_sound key other agree) in
      ground (arith, e)
]

find_way-valid :
    (left way : ℕ) (set : ℕ → Entry) (key : RouteKey) (j : ℕ)
    → find_way left way set key ≡ some j
    → (set j).valid ≡ true
unfolding find_way
find_way-valid zero way set key j f = ground arith
find_way-valid (suc left) way set key j f = ground (arith, find_way-valid left (way + 1) set key j)

lookup_set-with_entry :
    (set : ℕ → Entry) (key other : RouteKey) (way j : ℕ) (e : Entry)
    → find_way route_ways 0 set key ≡ none
    → find_empty route_ways 0 set ≡ some way
    → e.key ≡ key
    → find_way route_ways 0 set other ≡ some j
    → lookup_set (with_entry set way e) other ≡ lookup_set set other
lookup_set-with_entry set key other way j e f n k g =
    let free_way = find_empty-free route_ways 0 set way n in
    let taken_way = find_way-valid route_ways 0 set other j g in
    let apart : j == way ≡ false = ground (arith, ap (λ a. (set a).valid)) in
    let differ = ap (λ a. key_equal a other) k ∙ keys-differ set key other j f g in
    ground (arith, find_way-keep route_ways 0 set other way j e g free_way differ, g, apart)

lookup-insert :
    (st : State) (key other : RouteKey) (hint : Option ℕ) (r : FlowRoute) (way : ℕ)
    → find_way route_ways 0 (st.table (set_of key)) key ≡ none
    → find_empty route_ways 0 (st.table (set_of key)) ≡ some way
    → lookup st other ≡ some r
    → lookup (insert st key hint way).0 other ≡ some r
unfolding new_entry
lookup-insert st key other hint r way f n h =
    let set = st.table (set_of other) in
    let filled = with_entry set way (new_entry st key hint) in
    let moved = set-insert st key hint way (set_of other) in
    elim (Bool-cases (set_of other == set_of key)) [
      | inr away ↦
          ap (λ s. lookup_set s other) (moved ∙ ap (λ (b : Bool). if b then filled else set) away)
          ∙ h
      | inl here ↦
          let same = (==_iff (set_of other) (set_of key)).0 here in
          let f' = ap (λ i. find_way route_ways 0 (st.table i) key) same ∙ f in
          let n' = ap (λ i. find_empty route_ways 0 (st.table i)) same ∙ n in
          ap (λ s. lookup_set s other) (moved ∙ ap (λ (b : Bool). if b then filled else set) here)
          ∙ elim (Option-cases (find_way route_ways 0 set other)) [
            | inl missing ↦ ground (arith, missing)
            | inr (j, g) ↦
                lookup_set-with_entry set key other way j (new_entry st key hint) f' n' refl g ∙ h
          ]
    ]

-- A flow that has an entry keeps its route when another packet's flow is looked up or inserted.
pub lookup-get_key :
    (st : State) (key other : RouteKey) (hint : Option ℕ) (r : FlowRoute)
    → lookup st other ≡ some r
    → lookup (get_key st key hint).0 other ≡ some r
lookup-get_key st key other hint r h = elim (search_set (st.table (set_of key)) key) [
  | known way f ↦
      ap (λ (p : State × FlowRoute). lookup p.0 other) (get_key-known st key hint way f) ∙ h
  | full f n ↦ ap (λ (p : State × FlowRoute). lookup p.0 other) (get_key-full st key hint f n) ∙ h
  | free way f n ↦
      ap (λ (p : State × FlowRoute). lookup p.0 other) (get_key-free st key hint way f n)
      ∙ lookup-insert st key other hint r way f n h
]
