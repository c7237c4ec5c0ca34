-- ===== src/Seh64/Handler.antt =====
-- `c_specific_handler` of speakeasy/windows/seh64.py: the handler of the __try blocks of MSVC.
use speakeasy.Base.{
  ℕ, zero, suc, ◌+◌, ◌*◌, ◌/◌, ◌%◌, ◌^◌, Bool, true, false, ◌&&◌, ◌||◌, not, List, [], ◌∷◌, ◌++◌,
  ltb, leb, ◌==◌, if◌then◌else◌, take, drop,
}
use speakeasy.Base.Int.{ℤ, pos}
use speakeasy.Unwind.{from_bytes}
use speakeasy.Unwind.Frame.{Context}
use speakeasy.Unwind.Frame.Prolog.{to_bytes}
use speakeasy.Seh.{
  Guest, M, ◌>>=◌, ◌>>◌, return, Result, value, as_long, mem_read, write_u32, read_u32, alloc,
  guest_call,
}
use speakeasy.Seh32.Msvc.{
  is_unwinding, verdict_of, continue_execution, continue_search, execute_handler,
}
use speakeasy.Seh64.{Modules}
use speakeasy.Seh64.Frames.{dispatcher_context_size, unwind_to}

-- a record of the scope table: begin, end, filter or __finally, and target, which is 0 for a __finally
pub record Scope : Type 0 where
  pub begin : ℕ
  pub end : ℕ
  pub handler : ℕ
  pub target : ℕ

unfoldable pub scope_of : List ℕ → Scope
scope_of bytes = record {
  begin = from_bytes (take 4 bytes);
  end = from_bytes (take 4 (drop 4 bytes));
  handler = from_bytes (take 4 (drop 8 bytes));
  target = from_bytes (take 4 (drop 12 bytes));
}

-- struct.iter_unpack("<IIII", bytes)
unfoldable pub scopes_of : ℕ → List ℕ → List Scope
scopes_of zero bytes = []
scopes_of (suc n) bytes = scope_of bytes ∷ scopes_of n (drop 16 bytes)

-- the fields of a DispatcherContext that the handler uses
pub record DispatcherContext : Type 0 where
  pub control_pc : ℕ
  pub image_base : ℕ
  pub target_ip : ℕ
  pub handler_data : ℕ
  pub scope_index : ℕ

unfoldable pub dispatcher_context_from : List ℕ → DispatcherContext
dispatcher_context_from bytes = record {
  control_pc = from_bytes (take 8 bytes);
  image_base = from_bytes (take 8 (drop 8 bytes));
  target_ip = from_bytes (take 8 (drop 32 bytes));
  handler_data = from_bytes (take 8 (drop 56 bytes));
  scope_index = from_bytes (take 4 (drop 72 bytes));
}

-- `begin <= pc - image_base < end`; the difference can be negative
unfoldable pub contains : ℕ → Scope → ℕ → Bool
contains image_base s pc = leb (image_base + s.begin) pc && ltb pc (image_base + s.end)

-- the `any` of the unwind: a scope of the target that is this scope
unfoldable pub has_target : ℕ → ℕ → Scope → List Scope → Bool
has_target image_base target_pc s [] = false
has_target image_base target_pc s (t ∷ scopes) =
    contains image_base t target_pc && (t.handler == s.handler && t.target == s.target)
    || has_target image_base target_pc s scopes

-- EXCEPTION_TARGET_UNWIND is bit 5
unfoldable pub is_target_unwind : ℕ → Bool
is_target_unwind flags = flags / 2 ^ 5 % 2 == 1

module _ (g : Guest Context) (ms : Modules g.State) where
  -- EXCEPTION_EXECUTE_HANDLER, which is 1, is the filter of `__except (1)`
  unfoldable pub filter_verdict : DispatcherContext → Scope → ℕ → ℕ → M g.State ℤ
  filter_verdict dc s pointers establisher_frame = if s.handler == 1 then return (pos 1) else (do
    verdict ← guest_call g (record {
      function = dc.image_base + s.handler;
      args = pointers ∷ establisher_frame ∷ [];
      registers = [];
    })
    return (as_long verdict))

  -- the loop of the search over the scopes
  unfoldable pub search_scopes :
      DispatcherContext → Context → ℕ → ℕ → ℕ → ℕ → List Scope → M g.State (Result Context)
  search_scopes dc caller record_address code pointers establisher_frame [] = return (value 1)
  search_scopes dc caller record_address code pointers establisher_frame (s ∷ scopes) =
      elim (contains dc.image_base s dc.control_pc && not (s.target == 0)) [
        | false ↦ search_scopes dc caller record_address code pointers establisher_frame scopes
        | true ↦ (do
          verdict ← filter_verdict dc s pointers establisher_frame
          (elim (verdict_of verdict) [
            | continue_execution ↦ return (value 0)
            | execute_handler ↦
                unwind_to g ms caller establisher_frame (dc.image_base + s.target) record_address
                  code
            | continue_search ↦
                search_scopes dc caller record_address code pointers establisher_frame scopes
          ]))
      ]

  -- a __finally block, with the scope index of the next scope; SCOPE_INDEX_OFFSET is 72
  unfoldable pub run_finally : DispatcherContext → ℕ → ℕ → ℕ → Scope → M g.State (Unit {0})
  run_finally dc dispatcher_context establisher_frame index s = do
    write_u32 g (pos (dispatcher_context + 72)) (index + 1)
    _ ← guest_call g (record {
      function = dc.image_base + s.handler;
      args = 1 ∷ establisher_frame ∷ [];
      registers = [];
    })
    return tt

  -- the loop of the unwind over the scopes from `index` on, of all scopes
  unfoldable pub leave_scopes :
      DispatcherContext → ℕ → ℕ → ℕ → List Scope → ℕ → List Scope → M g.State (Result Context)
  leave_scopes dc flags dispatcher_context establisher_frame all index [] = return (value 1)
  leave_scopes dc flags dispatcher_context establisher_frame all index (s ∷ scopes) =
      elim (contains dc.image_base s dc.control_pc) [
        | false ↦ leave_scopes dc flags dispatcher_context establisher_frame all (index + 1) scopes
        | true ↦ elim (is_target_unwind flags && has_target dc.image_base dc.target_ip s all) [
          | true ↦ return (value 1)
          | false ↦ (do
            (if s.target == 0
                then run_finally dc dispatcher_context establisher_frame index s
                else return tt)
            leave_scopes dc flags dispatcher_context establisher_frame all (index + 1) scopes)
        ]
      ]

  unfoldable pub search_or_leave :
      DispatcherContext → Context → ℕ → ℕ → ℕ → ℕ → ℕ → ℕ → List Scope → M g.State (Result Context)
  search_or_leave dc caller code flags record_address establisher_frame context dispatcher_context
        scopes =
      if is_unwinding flags
      then leave_scopes dc flags dispatcher_context establisher_frame scopes dc.scope_index
          (drop dc.scope_index scopes)
      else (do
        pointers ← alloc g (to_bytes 8 record_address ++ to_bytes 8 context)
        search_scopes dc caller record_address code pointers establisher_frame
            (drop dc.scope_index scopes))

  unfoldable pub c_specific_handler : ℕ → ℕ → ℕ → ℕ → M g.State (Result Context)
  c_specific_handler record_address establisher_frame context dispatcher_context w =
      (do
        let caller = g.caller_context w.guest
        head ← mem_read g (pos record_address) 8
        bytes ← mem_read g (pos dispatcher_context) dispatcher_context_size
        let dc = dispatcher_context_from bytes
        count ← read_u32 g (pos dc.handler_data)
        table ← mem_read g (pos (dc.handler_data + 4)) (16 * count)
        search_or_leave dc caller (from_bytes (take 4 head)) (from_bytes (drop 4 head))
            record_address establisher_frame context dispatcher_context (scopes_of count table))
        w
