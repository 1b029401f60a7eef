-- ===== src/Hook.antt =====
-- src/guanaco_model_hook.cpp: what llama.cpp calls, over the loader.
--
-- The constructor always makes a loader, so that the tests of it are true. A null name is none. A
-- pointer to expert ids and their number are the list of the ids: a null pointer or n <= 0 is the
-- empty list. The loader's members stand in three records: those that say which paging is on are set in
-- each as the files are read. The log lines are left out.
use Prim.Native.String.{String}
pub mod Books
pub mod Served
use guanaco.Base.{ℕ, Bool, Option, none, some, List, [], ◌∷◌, ◌++◌, ℤ}
use guanaco.Uring.{Liburing}
use guanaco.Expert.{Floats, Experts}
use guanaco.Expert.Slices.{register_expert_tensor, get_expert_tensor_data}
use guanaco.Expert.Routing.{record_routing}
use guanaco.Expert.Prefetch.{prefetch_experts}
use guanaco.Expert.Pilot.{pilot_prefetch_next_layer}
use guanaco.Expert.Imatrix.{PriorFile, load_imatrix_prior}
use guanaco.Expert.Advise.{Fadvise, advise_experts_random}
use guanaco.Storage.{Storage, ManifestEntry}
use guanaco.Storage.Manifest.Standalone.{lookup_expert}
use guanaco.Storage.Start.{Disk, initialize}
use guanaco.Dense.{Os, Loader}
use guanaco.Dense.Slabs.{register_stream_tensor, get_stream_tensor_data}
use guanaco.Dense.Resident.{fill_resident_layers}
use guanaco.Dense.Boundary.{on_layer_boundary}

pub record Hook (F R : Type 0) : Type 0 where
  pub loader : Loader F R
  pub storage : Storage
  pub registered_tensors : List String

-- The world around the hook: the system, liburing, the floats, posix_fadvise() and the environment's
-- GUANACO_EXPERT_ADVICE, the imatrix file beside the model, and the model's files.
pub record World (F R : Type 0) : Type 0 where
  pub os : Os
  pub lib : Liburing R
  pub floats : Floats F
  pub fadvise : Fadvise → Bool
  pub expert_advice_env : Option String
  pub prior : PriorFile
  pub disk : Disk

module _ {F R : Type 0} where
  -- A call on the loader's expert half.
  abbrev pub on_experts : (Experts F → Experts F) → Hook F R → Hook F R
  on_experts f h = record h { loader = record h.loader { experts = f h.loader.experts } }

  -- A call on the loader.
  abbrev pub on_loader : (Loader F R → Loader F R) → Hook F R → Hook F R
  on_loader f h = record h { loader = f h.loader }

  unfoldable pub lookup : Hook F R → Option String → Option ManifestEntry
  unfolding lookup_expert
  lookup h none = none
  lookup h (some name) = lookup_expert name h.storage.manifest

  -- The loader knows what its files say.
  abbrev pub with_storage : Storage → Hook F R → Hook F R
  with_storage s h = record h {
    storage = s;
    loader = record {
      experts = record h.loader.experts { enabled = s.enabled; fd_open = s.fd_open };
      pager = record h.loader.pager { dense_enabled = s.dense_enabled; fd_open = s.fd_open };
    };
  }

  unfoldable pub expert_tensor_data : Hook F R → Option String → Option ℕ
  unfolding get_expert_tensor_data
  expert_tensor_data h none = none
  expert_tensor_data h (some name) = get_expert_tensor_data h.loader.experts name

  unfoldable pub dense_streaming : Hook F R → Bool
  dense_streaming h = h.loader.pager.dense_enabled

  unfoldable pub stream_tensor_data : Hook F R → Option String → Option ℕ
  unfolding get_stream_tensor_data
  stream_tensor_data h none = none
  stream_tensor_data h (some name) = get_stream_tensor_data h.loader.pager name

  unfoldable pub register_stream : Hook F R → Option String → ℤ → ℕ → ℕ → Option ℕ → Hook F R
  unfolding register_stream_tensor
  register_stream h none layer file_offset byte_size mmap_base = h
  register_stream h (some name) layer file_offset byte_size mmap_base =
      on_loader (λ ld. register_stream_tensor ld name layer file_offset byte_size mmap_base) h

  module _ (w : World F R) where
    -- The loader's answer is not looked at.
    unfoldable pub initialize_hook : Hook F R → Hook F R
    unfolding initialize
    initialize_hook h = with_storage (initialize w.disk h.storage).0 h

    unfoldable pub register_expert : Hook F R → Option String → ℤ → ℕ → ℕ → ℕ → Option ℕ → Hook F R
    unfolding register_expert_tensor
    register_expert h none layer file_offset byte_size num_experts mmap_base = h
    register_expert h (some name) layer file_offset byte_size num_experts mmap_base =
        record (on_experts
          (λ st.
            register_expert_tensor w.floats st name layer file_offset byte_size num_experts
              mmap_base)
          h) { registered_tensors = h.registered_tensors ++ name ∷ [] }

    unfoldable pub fill : Hook F R → Hook F R
    unfolding fill_resident_layers
    fill h = on_loader (fill_resident_layers w.os w.lib) h

    unfoldable pub at_boundary : Hook F R → ℤ → Hook F R
    unfolding on_layer_boundary
    at_boundary h layer = on_loader (λ ld. on_layer_boundary w.os w.lib ld layer) h

    unfoldable pub on_router_computed : Hook F R → ℤ → List ℤ → Hook F R
    unfolding record_routing prefetch_experts pilot_prefetch_next_layer
    on_router_computed h layer [] = h
    on_router_computed h layer (z ∷ zs) =
        let k = w.os.kernel in
        on_experts
          (λ st.
            pilot_prefetch_next_layer w.floats k
              (prefetch_experts k (record_routing w.floats k st layer (z ∷ zs)) layer (z ∷ zs))
              layer (z ∷ zs))
          h

    unfoldable pub advise_random_access : Hook F R → Hook F R
    unfolding advise_experts_random
    advise_random_access h =
        on_experts (λ st. (advise_experts_random w.os.kernel w.fadvise w.expert_advice_env st).0) h

    -- The hook's result is always empty.
    unfoldable pub on_tensors_loaded : Hook F R → Hook F R
    unfolding fill load_imatrix_prior
    on_tensors_loaded h =
        on_experts (λ st. (load_imatrix_prior w.os.kernel w.floats st w.prior).0) (fill h)

-- What llama.cpp calls.
pub data Event : Type 0 where
  initializes : Event
  expert_tensor : Option String → ℤ → ℕ → ℕ → ℕ → Option ℕ → Event
  stream_tensor : Option String → ℤ → ℕ → ℕ → Option ℕ → Event
  resident_fill : Event
  boundary : ℤ → Event
  routed_to : ℤ → List ℤ → Event
  random_access : Event
  tensors_loaded : Event

module _ {F R : Type 0} (w : World F R) where
  unfoldable pub handle : Hook F R → Event → Hook F R
  handle h initializes = initialize_hook w h
  handle h (expert_tensor name layer file_offset byte_size num_experts mmap_base) =
      register_expert w h name layer file_offset byte_size num_experts mmap_base
  handle h (stream_tensor name layer file_offset byte_size mmap_base) =
      register_stream h name layer file_offset byte_size mmap_base
  handle h resident_fill = fill w h
  handle h (boundary layer) = at_boundary w h layer
  handle h (routed_to layer ids) = on_router_computed w h layer ids
  handle h random_access = advise_random_access w h
  handle h tensors_loaded = on_tensors_loaded w h

  unfoldable pub handle_all : Hook F R → List Event → Hook F R
  unfolding handle
  handle_all h [] = h
  handle_all h (e ∷ es) = handle_all (handle h e) es
