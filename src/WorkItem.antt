-- ===== src/WorkItem.antt =====
-- src/FileContext.cpp, `lfs_work_item_t` and the functions that read it. A pointer to a work item
-- is `some` item, the null pointer `none`.
use lamina_fs.Prelude.{
  ℕ, Bool, true, false, Option, none, some, List, [], ◌∷◌, ◌++◌, ◌==◌, if◌then◌else◌, ◌>>=◌,
}
use lamina_fs.Types.{
  ErrorCode, ok, out_of_work_items, Operation, BufferAction, do_not_free_buffer, Text, Bytes,
}
use lamina_fs.Paths.{normalize_path}

-- A callback and the allocator are known by numbers; `none` is the null function.
pub record WorkItem : Type 0 where
  pub operation : Operation
  pub callback : Option ℕ
  pub callback_user_data : ℕ
  pub allocator : Option ℕ
  pub filename : Text
  pub buffer : Option Bytes
  pub buffer_bytes : ℕ
  pub offset : ℕ
  pub callback_buffer_action : BufferAction
  pub result_code : ErrorCode
  pub null_terminate : Bool
  pub completed : Bool

-- `T()` in the pool: the members' initialisers, and zero for the others.
abbrev pub blank : WorkItem
blank = record {
  operation = Operation.exists;
  callback = none;
  callback_user_data = 0;
  allocator = none;
  filename = [];
  buffer = none;
  buffer_bytes = 0;
  offset = 0;
  callback_buffer_action = do_not_free_buffer;
  result_code = ok;
  null_terminate = false;
  completed = false;
}

unfoldable pub get_result : Option WorkItem → ErrorCode
get_result none = out_of_work_items
get_result (some item) = item.result_code

unfoldable pub get_buffer : Option WorkItem → Option Bytes
get_buffer none = none
get_buffer (some item) = item.buffer

unfoldable pub get_bytes : Option WorkItem → ℕ
get_bytes none = 0
get_bytes (some item) = item.buffer_bytes

-- `WorkItemFreeBuffer` of an item: `none` is a call of a null `free`.
unfoldable pub free_item_buffer : WorkItem → Option WorkItem
free_item_buffer item = elim item.buffer [
  | none ↦ some item
  | some bytes ↦ item.allocator >>= λ _. some (record item { buffer = none })
]

unfoldable pub is_completed : Option WorkItem → Bool
is_completed none = true
is_completed (some item) = elim item.callback [ some _ ↦ true | none ↦ item.completed ]

-- The bytes of a C string before its terminator.
unfoldable pub text_of : List ℕ → Text
text_of [] = []
text_of (c ∷ cs) = let rest = c ∷ text_of cs in if c == 0 then [] else rest

-- `initWorkItem`, which copies the path and normalises the copy.
unfoldable pub init_work_item :
    WorkItem → Text → Operation → Option ℕ → ℕ → BufferAction → Option WorkItem
unfolding text_of
init_work_item item path op callback user_data action = do
  normalized ← normalize_path (path ++ (0 ∷ []))
  some (record item {
    operation = op;
    filename = text_of normalized;
    callback = callback;
    callback_user_data = user_data;
    callback_buffer_action = action;
    completed = false;
  })
