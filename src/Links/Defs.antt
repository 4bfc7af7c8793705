-- ===== src/Links/Defs.antt =====
-- The operations of kernel/os_list.c.
use ahura_rtos.Shared.{
  ℕ, Bool, not, ◌||◌, Option, none, some, if◌then◌else◌, is_null, points_to, update,
}

-- One os_list_t, and the fields of all os_list_node_t.
pub record Links : Type 0 where
  pub head : Option ℕ
  pub tail : Option ℕ
  pub next : ℕ → Option ℕ
  pub prev : ℕ → Option ℕ

-- os_list_init
unfoldable pub init : Links → Links
init s = record s { head = none; tail = none }

-- os_list_is_empty
unfoldable pub is_empty : Links → Bool
is_empty s = is_null s.head

-- os_list_push_back
unfoldable pub push_back : ℕ → Links → Links
push_back node s =
    let detached : Links = record s {
      next = update s.next node none;
      prev = update s.prev node s.tail;
    } in
    let linked : Links = elim detached.tail [
      | none ↦ record detached { head = some node }
      | some r ↦ record detached { next = update detached.next r (some node) }
    ] in
    record linked { tail = some node }

-- os_list_pop_front
unfoldable pub pop_front : Links → Option ℕ × Links
pop_front s = elim s.head [
  | none ↦ (none, s)
  | some node ↦
      let moved : Links = record s { head = s.next node } in
      let linked : Links = elim moved.head [
        | none ↦ record moved { tail = none }
        | some r ↦ record moved { prev = update moved.prev r none }
      ] in
      (
        some node,
        record linked { next = update linked.next node none; prev = update linked.prev node none },
      )
]

-- os_list_remove: the node's predecessor, or the head, skips it; so does its successor, or the tail.
unfoldable pub skip_forward : ℕ → Links → Links
skip_forward node s = elim (s.prev node) [
  | none ↦ record s { head = s.next node }
  | some r ↦ record s { next = update s.next r (s.next node) }
]

unfoldable pub skip_backward : ℕ → Links → Links
skip_backward node s = elim (s.next node) [
  | none ↦ record s { tail = s.prev node }
  | some r ↦ record s { prev = update s.prev r (s.prev node) }
]

unfoldable pub remove : ℕ → Links → Links
remove node s =
    let skipped = skip_backward node (skip_forward node s) in
    if not (is_null (s.prev node)) || (not (is_null (s.next node)) || points_to s.head node)
    then record skipped {
      next = update skipped.next node none;
      prev = update skipped.prev node none;
    }
    else s

-- os_list_insert_before
unfoldable pub insert_before : Option ℕ → ℕ → Links → Links
insert_before none node s = push_back node s
insert_before (some position) node s =
    let pointed : Links = record s {
      next = update s.next node (some position);
      prev = update s.prev node (s.prev position);
    } in
    let linked : Links = elim (pointed.prev position) [
      | none ↦ record pointed { head = some node }
      | some r ↦ record pointed { next = update pointed.next r (some node) }
    ] in
    record linked { prev = update linked.prev position (some node) }
