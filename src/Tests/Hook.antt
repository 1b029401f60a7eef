-- ===== src/Tests/Hook.antt =====
-- The model hook at concrete inputs.
use guanaco.Base.{refl, true, none, some, List, [], ◌∷◌, ℕ, arith, pos, All, replicate, count_below}
use guanaco.Expert.Books.{total}
use guanaco.Expert.Invariant.{Booked}
use guanaco.Expert.Imatrix.{entries}
use guanaco.Expert.Prefetch.Resident.{Serves}
use guanaco.Hook.{
  Hook, World, Event, initializes, expert_tensor, stream_tensor, tensors_loaded, boundary,
  routed_to, random_access, handle_all, on_router_computed,
}
use guanaco.Hook.Books.{offered, handle_all-Booked}
use guanaco.Hook.Served.{on_router_computed-Serves}
use guanaco.Tests.Data.{whole, empty, loaded_experts, tensor}
use guanaco.Storage.Start.{fresh_storage}
use guanaco.Tests.Storage.{config, disk}
use guanaco.Tests.Dense.{Queue, in_order, os, pager}

abbrev world : World ℕ Queue
world = record {
  os = os;
  lib = in_order;
  floats = whole;
  fadvise = λ f. true;
  expert_advice_env = some "random";
  disk = disk;
  prior = entries (("blk.0.ffn_up_exps", pos 3 ∷ pos 9 ∷ pos 1 ∷ []) ∷ []);
}

abbrev hook : Hook ℕ Queue
hook = record {
  loader = record { experts = empty; pager = pager };
  storage = fresh_storage config;
  registered_tensors = [];
}

abbrev events : List Event
events =
    initializes
    ∷ expert_tensor (some "blk.0.ffn_up_exps") (pos 0) 0 30 3 (some 8192)
    ∷ stream_tensor (some "blk.0.attn_q") (pos 0) 30 10 none
    ∷ tensors_loaded
    ∷ random_access
    ∷ routed_to (pos 0) (pos 1 ∷ pos 2 ∷ [])
    ∷ boundary (pos 1)
    ∷ []

hook-Booked : Booked (offered world events) hook.loader.experts
unfolding total
hook-Booked = record { sized = tt; books = refl; fits = omega arith }

handle_all-Booked_example : Booked 0 (handle_all world hook events).loader.experts
handle_all-Booked_example = handle_all-Booked world hook events (omega arith, tt) hook-Booked

abbrev loaded_hook : Hook ℕ Queue
loaded_hook = record {
  loader = record {
    experts = record loaded_experts { tensors = record tensor { trans = replicate 9 0 } ∷ [] };
    pager = pager;
  };
  storage = fresh_storage config;
  registered_tensors = [];
}

loaded-Booked : Booked 0 loaded_hook.loader.experts
unfolding total count_below
loaded-Booked = record {
  sized = (
    record {
      loaded = refl;
      total_hits = refl;
      window_hits = refl;
      pinned = refl;
      last_used = refl;
      trans = refl;
      slices = refl;
    },
    tt,
  );
  books = refl;
  fits = omega arith;
}

on_router_computed-Serves_example :
    All
      (Serves (pos 0) (pos 2 ∷ []))
      (on_router_computed world loaded_hook (pos 0) (pos 2 ∷ [])).loader.experts.tensors
on_router_computed-Serves_example =
    on_router_computed-Serves world loaded_hook (pos 0) (pos 2 ∷ []) refl loaded-Booked
