-- ===== src/Examples/Updates.antt =====
-- The integration of an update at concrete inputs.
use y_crdt.Common.{
  ℕ, ◌+◌, ◌≡◌, ◌≢◌, refl, Bool, false, Option, none, some, List, [], ◌∷◌, ltb, ◌==◌, if◌then◌else◌,
  arith,
}
use y_crdt.BTree.{get, remove}
use y_crdt.HashMap.{put}
use y_crdt.IdMap.{insert_range}
use y_crdt.IdMap.Build.{insert_id}
use y_crdt.Ids.Insert.{insert_with, insert_at_tail}
use y_crdt.BlockStore.{push, push_block, get_clock, list_clock}
use y_crdt.StateVector.{StateVector, clock_of, set_max}
use y_crdt.Update.{
  UpdateBlock, BlockMap, Target, Outcome, finished, integrate_blocks, integrate_loop, next,
  next_client, place_block, look_up, pending,
}
use y_crdt.Update.Counts.{count, count_all}
use y_crdt.Update.Fuel.{Ends, integrate_blocks-ends}
use y_crdt.Update.Lossless.{integrate_blocks-lossless, pending_blocks}
use y_crdt.Update.Garbage.{Transaction, garbage, integrate_gc, integrate_skip}
use y_crdt.Examples.{units}

abbrev block : ℕ → ℕ → ℕ → List (ℕ × ℕ) → UpdateBlock
block client clock len dependencies = record {
  client = client;
  clock = clock;
  len = len;
  is_skip = false;
  dependencies = dependencies;
}

abbrev first_missing : StateVector → List (ℕ × ℕ) → Option ℕ
first_missing sv [] = none
first_missing sv ((client, clock) ∷ ids) =
    if ltb clock (clock_of sv client) then first_missing sv ids else some client

-- A store that only knows how far each client has come.
abbrev clocks : Target StateVector
clocks = record {
  get_clock = clock_of;
  missing_dependency = λ sv b. some (first_missing sv b.dependencies, sv);
  integrate_skip = λ sv client clock len. some (set_max sv client (clock + len));
  integrate_block = λ sv b. some (set_max sv b.client (b.clock + b.len));
}

-- The second block of client 1 needs client 2, which needs client 3, of which nothing is known.
abbrev two_clients : BlockMap
two_clients =
    (1, block 1 0 2 [] ∷ block 1 2 1 ((2, 0) ∷ []) ∷ [])
    ∷ (2, block 2 0 1 ((3, 5) ∷ []) ∷ block 2 1 4 [] ∷ [])
    ∷ []

abbrev is_first : UpdateBlock → Bool
is_first b = b.clock == 0

integrate_blocks-ends_example : integrate_blocks clocks 8 [] two_clients ≢ Outcome.out_of_fuel
integrate_blocks-ends_example = integrate_blocks-ends clocks 8 [] two_clients (omega arith)

integrate_blocks-lossless_example :
    Ends
      (λ g. count is_first g.past + count_all is_first (pending_blocks (pending g.picker)) ≡ 2)
      (integrate_blocks clocks 8 [] two_clients)
integrate_blocks-lossless_example =
    integrate_blocks-lossless clocks is_first 8 [] two_clients (unfold get in (refl, (refl, tt)))
      ((refl, (refl, tt)), ((refl, (refl, tt)), tt)) (omega arith)

-- An update of garbage with a hole fills the hole by a skip.
abbrev garbage_update : BlockMap
garbage_update = (7, block 7 3 2 [] ∷ []) ∷ []

abbrev empty_transaction : Transaction
empty_transaction = record {
  blocks = record { clients = []; skips = [] };
  delete_set = [];
  insert_set = [];
}

abbrev clocks_after : Outcome Transaction → ℕ
clocks_after (finished g) = garbage.get_clock g.txn 7
clocks_after o = 0

garbage_fills : clocks_after (integrate_blocks garbage 2 empty_transaction garbage_update) ≡ 5
unfolding integrate_blocks integrate_loop next next_client get remove put place_block look_up
    integrate_gc integrate_skip insert_id insert_range insert_with insert_at_tail push push_block
    get_clock list_clock
garbage_fills = refl
