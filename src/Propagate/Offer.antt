-- ===== src/Propagate/Offer.antt =====
-- The loops of `step_push` of propagate.rs over the subscribers of a node, and the write of its
-- new value.
use pgress.Prelude.{
  ℕ, Bool, true, false, not, ◌&&◌, List, [], ◌∷◌, ◌++◌, Option, none, some, if◌then◌else◌,
}
use pgress.Prelude.Words.{inc64}
use pgress.Prelude.Sorting.{member}
use pgress.Ternary.{T, same}
use pgress.Time.{ProductTime}
use pgress.Graph.{update_node}
use pgress.Node.{
  Node, NodeKind, input, computed, ComputeRule, meet_all_of, join_any_of, eval, ExecMode, eager,
  lazy, stabilizing, same_mode,
}
use pgress.Node
use pgress.Deps.{DepRegistry, mode_of, meta_of, update_dep_counter, update_last_seen}
use pgress.Deps.Window.{DepMeta, should_propagate}
use pgress.Values.{get_by_dense}
use pgress.Values
use pgress.Propagate.{World, Batch, PropEvent, value_changed, push}
use pgress.Propagate.Auth.{AuthContext, try_auth}

-- The arguments of `step_push` that no step changes.
pub record Env : Type 0 where
  pub now : ProductTime
  pub auth : Option AuthContext
  pub demanded : List ℕ

abbrev pub open_gate : Option DepMeta → ProductTime → Bool
open_gate none now = true
open_gate (some m) now = should_propagate m now

abbrev pub put_deps : (DepRegistry → DepRegistry) → Batch → Batch
put_deps f b = record b { world = record b.world { deps = f b.world.deps } }

-- The end of an iteration, once authority has been tried.
abbrev pub admit : Env → ℕ → ℕ → Bool × List PropEvent → Batch → Batch
admit env src sub (false, events) b = record b { events = b.events ++ events }
admit env src sub (true, events) b = record b {
  events = b.events ++ events;
  work = b.work ++ push sub ∷ [];
  world = record b.world { deps = update_last_seen src sub env.now b.world.deps };
}

-- One subscriber of the loops over `subs_vec`: the delta gate, the mode, authority, the push.
unfoldable pub offer : Env → ℕ → ℕ → Batch → Batch
unfolding try_auth
offer env src sub b =
    let w = b.world in
    if not (open_gate (meta_of src sub w.deps) env.now)
    then record b {
      world = record w {
        stats = record w.stats {
          pushes_suppressed_by_delta = inc64 w.stats.pushes_suppressed_by_delta;
        };
      };
    }
    else if not (same_mode (mode_of sub w.deps) eager) && not (member sub env.demanded)
    then record b {
      world = record w {
        stats = record w.stats {
          pushes_suppressed_by_mode = inc64 w.stats.pushes_suppressed_by_mode;
        };
      };
    }
    else admit env src sub (try_auth src sub w.deps env.auth) b

unfoldable pub offer_all : Env → ℕ → List ℕ → Batch → Batch
unfolding offer
offer_all env src [] b = b
offer_all env src (sub ∷ subs) b = offer_all env src subs (offer env src sub b)

unfoldable pub recount_all : List ℕ → T → T → Batch → Batch
recount_all [] old new b = b
recount_all (sub ∷ subs) old new b =
    recount_all subs old new (put_deps (update_dep_counter sub old new) b)

-- The loop of a ready node.
unfoldable pub recount_and_offer : Env → ℕ → List ℕ → T → T → Batch → Batch
unfolding offer
recount_and_offer env src [] old new b = b
recount_and_offer env src (sub ∷ subs) old new b =
    recount_and_offer env src subs old new
      (offer env src sub (put_deps (update_dep_counter sub old new) b))

-- The loop of an infected node on the shortcut.
unfoldable pub infect_subs : Env → ℕ → ExecMode → List ℕ → T → T → Batch → Batch
unfolding offer
infect_subs env src mode [] old new b = b
infect_subs env src mode (sub ∷ subs) old new b =
    let b' = (if not (same new old) then put_deps (update_dep_counter sub old new) b else b) in
    infect_subs env src mode subs old new
      (if not (same_mode mode eager) then b' else offer env src sub b')

abbrev pub start : World → Batch
start w = record { world = w; events = []; work = [] }

-- `graph.node_mut(id).unwrap().set_value(new)` and what goes with it.
unfoldable pub materialize : ℕ → T → T → Batch → Batch
unfolding Node.set_value Values.set_value
materialize id old new b =
    let w = b.world in
    record b {
      world = record w {
        graph = update_node id (λ n. (Node.set_value new n).0) w.graph;
        values = Values.set_value id new w.values;
        stats = record w.stats { nodes_materialized = inc64 w.stats.nodes_materialized };
      };
      events = b.events ++ value_changed id old new ∷ [];
    }
