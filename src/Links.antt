-- ===== src/Links.antt =====
-- The circular lists of common.h: the macros on the `next` and `prev` pointers of links.
pub mod Chains
pub mod Insertion
pub mod Removal
pub mod Queues
pub mod Apart
use state_thread.Base.{ℕ, Bool, List, [], ◌∷◌, ◌==◌, update}

-- struct _st_clist, all of them in memory
pub record Links : Type 0 where
  pub next : ℕ → ℕ
  pub prev : ℕ → ℕ

abbrev pub set_next : ℕ → ℕ → Links → Links
set_next p v s = record { next = update s.next p v; prev = s.prev }

abbrev pub set_prev : ℕ → ℕ → Links → Links
set_prev p v s = record { next = s.next; prev = update s.prev p v }

-- ST_INSERT_BEFORE, and ST_APPEND_LINK
pub insert_before : (e l : ℕ) → Links → Links
insert_before e l s =
    let s1 = set_next e l s in
    let s2 = set_prev e (s1.prev l) s1 in let s3 = set_next (s2.prev l) e s2 in set_prev l e s3

-- ST_INSERT_AFTER, and ST_INSERT_LINK
pub insert_after : (e l : ℕ) → Links → Links
insert_after e l s =
    let s1 = set_next e (s.next l) s in
    let s2 = set_prev e l s1 in let s3 = set_prev (s2.next l) e s2 in set_next l e s3

-- ST_REMOVE_LINK
pub remove_link : (e : ℕ) → Links → Links
remove_link e s = let s1 = set_next (s.prev e) (s.next e) s in set_prev (s1.next e) (s1.prev e) s1

-- ST_CLIST_IS_EMPTY
pub clist_is_empty : ℕ → Links → Bool
clist_is_empty l s = s.next l == l

-- ST_INIT_CLIST
pub init_clist : ℕ → Links → Links
init_clist l s = set_prev l l (set_next l l s)

-- What the library does to a queue: ST_APPEND_LINK, ST_INSERT_LINK and ST_REMOVE_LINK of an element
pub data Change : Type 0 where
  appends inserts removes : ℕ → Change

abbrev pub change : (head : ℕ) → Change → Links → Links
change h (appends e) s = insert_before e h s
change h (inserts e) s = insert_after e h s
change h (removes e) s = remove_link e s

abbrev pub changes : (head : ℕ) → List Change → Links → Links
changes h [] s = s
changes h (c ∷ cs) s = changes h cs (change h c s)
