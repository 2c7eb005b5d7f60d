-- ===== src/Server/Users/Restart.antt =====
-- What the start of main.c makes of the records file.
use rc_project.Base.{
  true, ◌<◌, ◌≡◌, ◌≢◌, refl, sym, ◌∙◌, arith, List, [], ◌∷◌, ℤ, ok, Returns, returned, All,
  map-agree, false, Option-cases, inl, inr,
}
use mathlib.Core.Path.{ap₂}
use rc_project.Memory.{Ptr, Heap, malloc, store, empty_heap}
use rc_project.Avl.{null, elements}
use rc_project.Avl.Order.{find, insert_sorted}
use rc_project.Avl.Sorting.{insert_all, insert_sorted_found}
use rc_project.Avl.Handle.{AvlTree, avl_add, avl_duplicated_key, cmp_at, new_avl_tree}
use rc_project.Avl.Handle.Mapped.{IsOrdered-agree}
use rc_project.Avl.Handle.Refines.{IsValid, contents, avl_add_duplicate, contents-IsSorted}
use rc_project.Avl.Handle.Add.{avl_add_new}
use rc_project.Server.{Server, Client, Session, Group, data_cmp}
use rc_project.Server.Boot.{load_records, boot}
use rc_project.Server.Compare.{data_cmp-IsComparator}
use rc_project.Server.Users.{users, UsersValid}

module _ (h : Heap Client) (tree : AvlTree Client) (x : Ptr) (r : Client)
    (v : IsValid data_cmp h tree) (apart : All (λ p. p ≢ x) (elements tree.root)) where
  other-cell : (p : Ptr) → p ≢ x → (store x r h).cell p ≡ h.cell p
  other-cell p ne = ground arith

  store-IsValid : IsValid data_cmp (store x r h) tree
  store-IsValid = record {
    flat = v.flat;
    ordered =
        IsOrdered-agree (λ p. p ≢ x) (cmp_at data_cmp h) (cmp_at data_cmp (store x r h))
          (λ a b na nb. cc (other-cell a na, other-cell b nb)) tree.root apart v.ordered;
    allocated = v.allocated;
  }

  contents-store : contents (store x r h) tree ≡ contents h tree
  contents-store =
      map-agree (λ p. p ≢ x) (store x r h).cell h.cell other-cell (elements tree.root) apart

  cell-store : (store x r h).cell x ≡ r
  cell-store = ground arith

-- the state of the loop over the records: the stack object is none of the tree's blocks
record Loading (client : Ptr) (file acc : List Client) (h : Heap Client) (tree : AvlTree Client)
    : Type 0 where
  valid : IsValid data_cmp h tree
  below : client < h.next
  live : h.live client ≡ true
  apart : All (λ p. p ≢ client) (elements tree.root)
  holds : contents h tree ≡ acc
  kept : tree.file ≡ file

-- one round of the loop
load_record :
    (client : Ptr) (r : Client) (file acc : List Client) (h : Heap Client) (tree : AvlTree Client)
    → Loading client file acc h tree
    → (code : ℤ) × (h' : Heap Client) × (tree' : AvlTree Client) × (avl_add data_cmp
          (store client r h)
          tree
          client
          false
          false
        ≡ ok (code, h', tree'))
      × Loading client file (insert_sorted data_cmp r acc) h' tree'
load_record client r file acc h tree l =
    let h0 = store client r h in
    let v0 = store-IsValid h tree client r l.valid l.apart in
    let same = contents-store h tree client r l.valid l.apart in
    let cell = cell-store h tree client r l.valid l.apart in
    elim (Option-cases (find data_cmp (h0.cell client) (contents h0 tree))) [
      | inl missing ↦
          let ((code, h', tree'), e, done) =
            returned _ (avl_add data_cmp h0 tree client false false) (
              avl_add_new data_cmp data_cmp-IsComparator h0 tree client false false v0 l.below
                l.live l.apart missing) in
          (
            code,
            h',
            tree',
            e,
            record {
              valid = done.1;
              below = omega (arith, done.6, l.below);
              live = done.8;
              apart = done.7;
              holds = done.2 ∙ ap₂ (insert_sorted data_cmp) cell (same ∙ l.holds);
              kept = done.3 ∙ l.kept;
            },
          )
      | inr (d, there) ↦ (
        avl_duplicated_key,
        h0,
        tree,
        avl_add_duplicate data_cmp data_cmp-IsComparator h0 tree client false false v0 l.live there,
        record {
          valid = v0;
          below = l.below;
          live = l.live;
          apart = l.apart;
          holds =
              same
              ∙ l.holds
              ∙ sym (
                  ap₂ (insert_sorted data_cmp) (sym cell) (sym (same ∙ l.holds))
                  ∙ insert_sorted_found data_cmp data_cmp-IsComparator (h0.cell client)
                      (contents h0 tree)
                      (contents-IsSorted data_cmp data_cmp-IsComparator h0 tree v0) there
                  ∙ same
                  ∙ l.holds);
          kept = l.kept;
        },
      )
    ]

load_records-Loading :
    (client : Ptr) (rs file acc : List Client) (h : Heap Client) (tree : AvlTree Client)
    → Loading client file acc h tree
    → (h' : Heap Client) × (tree' : AvlTree Client) × (load_records client rs h tree
        ≡ ok (h', tree'))
      × Loading client file (insert_all data_cmp acc rs) h' tree'
unfolding load_records insert_all
load_records-Loading client [] file acc h tree l = (h, tree, refl, l)
load_records-Loading client (r ∷ rs) file acc h tree l =
    let (code, h', tree', e, l') = load_record client r file acc h tree l in
    let (h'', tree'', e', l'') =
      load_records-Loading client rs file (insert_sorted data_cmp r acc) h' tree' l' in
    (h'', tree'', rw e e', l'')

-- a state with no session, no group and nothing sent
abbrev pub fresh : Session → Group → Heap Client → AvlTree Client → Server
fresh junk_session junk_group h tree = record {
  clients = h;
  sessions = empty_heap junk_session;
  group_heap = empty_heap junk_group;
  user_list = tree;
  user_session_list = record { size = 0; root = null; file = [] };
  group_list = record { size = 0; root = null; file = [] };
  current_group = 0;
  sent = [];
}

module _ (junk : Client) (junk_session : Session) (junk_group : Group) where
  -- The server starts whatever the records file holds. The accounts are its records in the order of
  -- their names, the first of each name. The file is left as it is.
  -- There is no session and no group, and nothing is sent.
  pub boot-users :
      (records : List Client)
      → Returns
          (λ s.
            UsersValid s
            × (users s ≡ insert_all data_cmp [] records)
            × (s.user_list.file ≡ records)
            × (s ≡ fresh junk_session junk_group s.clients s.user_list))
          (boot junk junk_session junk_group records)
  unfolding boot new_avl_tree elements
  boot-users records =
      let (h, tree, e, l) =
        load_records-Loading 1 records records [] (malloc junk (empty_heap junk)).1
          (new_avl_tree records)
          (record {
            valid = record { flat = tt; ordered = tt; allocated = tt };
            below = omega arith;
            live = refl;
            apart = tt;
            holds = refl;
            kept = refl;
          }) in
      rw e (l.valid, l.holds, l.kept, refl)
