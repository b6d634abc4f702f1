-- ===== src/Update.antt =====
-- yrs/src/update.rs: `BlockPicker` and the loop of `Update::integrate`.
-- Hash maps are lists of entries. A block of an update has the identifiers that
-- `Update::missing_dependency` looks up for it, in that order.
pub mod Codec
pub mod Counts
pub mod Steps
pub mod Fuel
pub mod Garbage
pub mod Sound
pub mod Drain
pub mod Lossless
use y_crdt.Common.{
  ◌%◌, leb, ◌^◌, ℕ, zero, suc, ◌+◌, ◌-◌, max, Bool, true, false, not, ◌&&◌, ◌||◌, Option, none,
  some, List, [], ◌∷◌, ◌++◌, ltb, ◌==◌, if◌then◌else◌,
}
use y_crdt.BTree.{get, remove}
use y_crdt.HashMap.{put}
use y_crdt.StateVector.{StateVector, set_min}

pub record UpdateBlock : Type 0 where
  pub client : ℕ
  pub clock : ℕ
  pub len : ℕ
  pub is_skip : Bool
  pub dependencies : List (ℕ × ℕ)

abbrev pub BlockMap : Type 0
BlockMap = List (ℕ × List UpdateBlock)

-- The stacks have their top first.
pub record BlockPicker : Type 0 where
  pub store : BlockMap
  pub latest : Option (ℕ × List UpdateBlock)
  pub stack : List UpdateBlock
  pub clients : List ℕ
  pub missing : StateVector
  pub unapplicable : BlockMap

abbrev insert_client : ℕ → List ℕ → List ℕ
insert_client c [] = c ∷ []
insert_client c (d ∷ ds) = let rest = insert_client c ds in if ltb c d then d ∷ rest else c ∷ d ∷ ds

-- The keys of a map with the largest on top.
abbrev pub sorted_clients : BlockMap → List ℕ
sorted_clients [] = []
sorted_clients ((c, bs) ∷ m) = insert_client c (sorted_clients m)

abbrev pub new_picker : BlockMap → BlockPicker
new_picker blocks = record {
  store = blocks;
  latest = none;
  stack = [];
  clients = sorted_clients blocks;
  missing = [];
  unapplicable = [];
}

-- What `next` does when the list of the latest client is empty.
unfoldable pub next_client : List ℕ → BlockPicker → Option UpdateBlock × BlockPicker
next_client [] p = (none, record p { clients = [] })
next_client (c ∷ cs) p = elim (get c p.store) [
  | none ↦ next_client cs (record p { latest = none })
  | some bs ↦ elim bs [
    | [] ↦ next_client cs (record p { latest = some (c, []); store = remove c p.store })
    | b ∷ rest ↦
        (some b, record p { latest = some (c, rest); store = remove c p.store; clients = cs })
  ]
]

abbrev pub next_from :
    List UpdateBlock
    → Option (ℕ × List UpdateBlock)
    → BlockPicker
    → Option UpdateBlock × BlockPicker
next_from (b ∷ stack) latest p = (some b, record p { stack = stack })
next_from [] none p = next_client p.clients p
next_from [] (some (c, [])) p = next_client p.clients p
next_from [] (some (c, b ∷ rest)) p = (some b, record p { latest = some (c, rest) })

unfoldable pub next : BlockPicker → Option UpdateBlock × BlockPicker
next p = next_from p.stack p.latest p

-- The blocks that are left of the latest client, if it is the given one.
abbrev pub latest_blocks : ℕ → Option (ℕ × List UpdateBlock) → List UpdateBlock
latest_blocks client none = []
latest_blocks client (some (c, bs)) = if c == client then bs else []

abbrev pub take_latest : ℕ → Option (ℕ × List UpdateBlock) → Option (ℕ × List UpdateBlock)
take_latest client none = none
take_latest client (some (c, bs)) = some (c, if c == client then [] else bs)

-- One round of the loop that drains the stack.
unfoldable pub give_up : UpdateBlock → BlockPicker → BlockPicker
give_up b p = elim (get b.client p.store) [
  | some bs ↦ record p {
    store = remove b.client p.store;
    unapplicable = put b.client (b ∷ bs) p.unapplicable;
  }
  | none ↦ record p {
    latest = take_latest b.client p.latest;
    unapplicable = put b.client (b ∷ latest_blocks b.client p.latest) p.unapplicable;
  }
]

-- The loop itself, from the bottom of the stack to its top.
unfoldable pub drain_stack : List UpdateBlock → BlockPicker → BlockPicker
drain_stack [] p = p
drain_stack (b ∷ stack) p = give_up b (drain_stack stack p)

abbrev pub has_client : ℕ → List UpdateBlock → Bool
has_client client [] = false
has_client client (b ∷ bs) = (b.client == client) || has_client client bs

-- `switch` when the missing client has no block to go on with.
unfoldable pub abandon : BlockPicker → ℕ → ℕ → Option UpdateBlock × BlockPicker
abandon p client clock =
    let q = drain_stack p.stack (record p { missing = set_min p.missing client clock }) in
    next (record q { stack = [] })

unfoldable pub switch : BlockPicker → UpdateBlock → ℕ → (ℕ → ℕ) → Option UpdateBlock × BlockPicker
switch p stack_head client missing_clock =
    let q = record p { stack = stack_head ∷ p.stack } in
    elim (get client p.store) [
      | none ↦ abandon q client (missing_clock client)
      | some bs ↦ elim bs [
        | [] ↦ abandon q client (missing_clock client)
        | b ∷ rest ↦
            if has_client client q.stack
            then abandon q client (missing_clock client)
            else (some b, record q { store = put client rest p.store })
      ]
    ]

pub record PendingUpdate : Type 0 where
  pub blocks : BlockMap
  pub missing : StateVector

unfoldable pub pending : BlockPicker → Option PendingUpdate
pending p = elim p.unapplicable [
  | [] ↦ none
  | entry ∷ m ↦ some (record { blocks = entry ∷ m; missing = p.missing })
]

-- What the loop of `integrate` needs of a transaction; none is an error or a panic, which ends it.
pub record Target (S : Type 0) : Type 0 where
  pub get_clock : S → ℕ → ℕ
  pub missing_dependency : S → UpdateBlock → Option (Option ℕ × S)
  pub integrate_skip : S → ℕ → ℕ → ℕ → Option S
  pub integrate_block : S → UpdateBlock → Option S

-- The state of the loop: the transaction, the clocks it has noted, the picker, and the blocks that
-- have left the picker, the last one first.
pub record Progress (S : Type 0) : Type 0 where
  pub txn : S
  pub state : List (ℕ × ℕ)
  pub picker : BlockPicker
  pub past : List UpdateBlock

pub data Outcome (S : Type 0) : Type 0 where
  out_of_fuel : Outcome S
  failed : Outcome S
  finished : Progress S → Outcome S

module _ {S : Type 0} (t : Target S) where
  -- The clock that is noted for a client, or else that of the transaction.
  abbrev pub local_clock : S → ℕ → List (ℕ × ℕ) → ℕ
  local_clock s client state = elim (get client state) [ none ↦ t.get_clock s client | some c ↦ c ]

  -- `as i32`, moved up by 2 ^ 31.
  abbrev pub as_i32 : ℕ → ℕ
  as_i32 clock = (clock + 2 ^ 31) % 2 ^ 32

  -- The offset of a block is the difference of two clocks as `i32`, a checked subtraction.
  abbrev pub has_offset : ℕ → ℕ → Bool
  has_offset local clock =
      leb (as_i32 clock) (as_i32 local + 2 ^ 31) && ltb (as_i32 local) (as_i32 clock + 2 ^ 31)

  unfoldable pub look_up : S → ℕ → UpdateBlock → Option (Option ℕ × S)
  look_up s local b = if has_offset local b.clock then t.missing_dependency s b else none

  -- The length of the hole before a block, which is the size of a negative offset.
  abbrev pub fill_hole : S → ℕ → UpdateBlock → Option S
  fill_hole s local b =
      if ltb (as_i32 local) (as_i32 b.clock)
      then (if as_i32 b.clock - as_i32 local == 2 ^ 31
          then none
          else t.integrate_skip s b.client local (as_i32 b.clock - as_i32 local))
      else some s

  -- The sum of `id.clock + len` is checked.
  abbrev pub check_end : UpdateBlock → S → Option S
  check_end b s = if ltb (b.clock + b.len) (2 ^ 32) then some s else none

  -- A block without missing dependencies: fill the hole before it, and integrate it.
  unfoldable pub place_block : S → ℕ → UpdateBlock → Option S
  place_block s local b = elim (fill_hole s local b) [
    | none ↦ none
    | some filled ↦ elim (t.integrate_block filled b) [ none ↦ none | some s' ↦ check_end b s' ]
  ]

  unfoldable pub integrate_loop : ℕ → Progress S → Option UpdateBlock → Outcome S
  integrate_loop fuel g none = finished g
  integrate_loop zero g (some b) = out_of_fuel
  integrate_loop (suc fuel) g (some b) = elim b.is_skip [
    | true ↦
        let n = next g.picker in
        integrate_loop fuel (record g { picker = n.1; past = b ∷ g.past }) n.0
    | false ↦
        let local = local_clock g.txn b.client g.state in
        elim (look_up g.txn local b) [
          | none ↦ failed
          | some (dependency, s) ↦ elim dependency [
            | some client ↦
                let n = switch g.picker b client (t.get_clock s) in
                integrate_loop fuel
                  (record g { txn = s; state = put b.client local g.state; picker = n.1 }) n.0
            | none ↦ elim (place_block s local b) [
              | none ↦ failed
              | some s' ↦
                  let n = next g.picker in
                  integrate_loop fuel
                    (record {
                      txn = s';
                      state = put b.client (max local (b.clock + b.len)) g.state;
                      picker = n.1;
                      past = b ∷ g.past;
                    })
                    n.0
            ]
          ]
        ]
  ]

  -- The loop of `integrate` over the blocks of an update.
  unfoldable pub integrate_blocks : ℕ → S → BlockMap → Outcome S
  integrate_blocks fuel s blocks =
      let n = next (new_picker blocks) in
      integrate_loop fuel (record { txn = s; state = []; picker = n.1; past = [] }) n.0
