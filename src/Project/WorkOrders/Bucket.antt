-- ===== src/Project/WorkOrders/Bucket.antt =====
-- The files behind the rows of work orders, under the writes to either.
use rooeel_backend_api.Prelude.{
  List, ℕ, ◌==◌, ◌≡◌, ◌≢◌, ◌⊎◌, not, Bool, true, false, some, ◌∷◌, keep, In, In-keep, arith,
  Bool-cases, inl, inr,
}
use rooeel_backend_api.Text.{text_eq, text_eq_iff}
use rooeel_backend_api.Prisma.{Engine}
use rooeel_backend_api.Schema.{WorkOrderPdf}
use rooeel_backend_api.Storage.{Files}

-- The deletions at which the row stays, if it is there.
abbrev pub cut_by : ℕ → Bool → List ℕ → List ℕ
cut_by id true cut = cut
cut_by id false cut = id ∷ cut

module _ (db : Engine) where
  -- Every work order has its file in the bucket, except those at whose deletion the database failed
  -- when the file was gone, and no two have the same.
  pub record IsBacked (cut : List ℕ) (orders : db.Rows WorkOrderPdf) (files : Files) : Type 0 where
    pub backed :
        (i : ℕ) (r : WorkOrderPdf) → db.row orders i ≡ some r → In r.file_key files ⊎ In i cut
    pub unique :
        (i j : ℕ) (a b : WorkOrderPdf)
        → db.row orders i ≡ some a
        → db.row orders j ≡ some b
        → a.file_key ≡ b.file_key
        → i ≡ j

  module _ (cut : List ℕ) (orders : db.Rows WorkOrderPdf) (files : Files)
      (h : IsBacked cut orders files) where
    pub put_order-IsBacked :
        (r : WorkOrderPdf)
        → ((i : ℕ) (a : WorkOrderPdf) → db.row orders i ≡ some a → a.file_key ≢ r.file_key)
        → IsBacked cut (db.put orders (db.next orders) r) (r.file_key ∷ files)
    put_order-IsBacked r fresh = record {
      backed = λ i a at. elim (Bool-cases (db.next orders == i)) [
        | inl same ↦ inl (inl (ground (arith, db.row-put orders (db.next orders) r i)))
        | inr other ↦ elim (h.backed i a (ground (arith, db.row-put orders (db.next orders) r i))) [
          | inl filed ↦ inl (inr filed)
          | inr lost ↦ inr lost
        ]
      ];
      unique = λ i j a b hi hj e. ground (
        arith,
        db.row-put orders (db.next orders) r i,
        db.row-put orders (db.next orders) r j,
        fresh i a,
        fresh j b,
        h.unique i j a b,
      );
    }

    pub drop_orders-IsBacked :
        (p : ℕ → WorkOrderPdf → Bool) → IsBacked cut (db.remove_where orders p) files
    drop_orders-IsBacked p = record {
      backed = λ i a at. h.backed i a (ground (arith, db.row-remove_where orders p i));
      unique = λ i j a b hi hj e.
          ground (
            arith,
            h.unique i j a b,
            db.row-remove_where orders p i,
            db.row-remove_where orders p j,
          );
    }

    -- The file of another order is still there.
    kept_file :
        (id : ℕ) (r : WorkOrderPdf)
        → db.row orders id ≡ some r
        → (i : ℕ) (a : WorkOrderPdf) → db.row orders i ≡ some a
        → id ≢ i
        → In a.file_key (keep (λ k. not (text_eq k r.file_key)) files) ⊎ In i cut
    kept_file id r there i a at other = elim (h.backed i a at) [
      | inl filed ↦ inl (
          In-keep (λ k. not (text_eq k r.file_key)) a.file_key files filed
            (ground (arith, text_eq_iff a.file_key r.file_key, h.unique i id a r)))
      | inr lost ↦ inr lost
    ]

    -- The deletion of the file of an order, and of the order.
    pub drop_file-IsBacked :
        (id : ℕ) (r : WorkOrderPdf)
        → db.row orders id ≡ some r
        → IsBacked cut
            (db.remove_where orders (λ i _. id == i))
            (keep (λ k. not (text_eq k r.file_key)) files)
    drop_file-IsBacked id r there = record {
      backed = λ i a at.
          kept_file id r there i a (ground (arith, db.row-remove_where orders (λ i _. id == i) i))
            (ground (arith, db.row-remove_where orders (λ i _. id == i) i));
      unique = (drop_orders-IsBacked (λ i _. id == i)).unique;
    }

    -- The deletion of the file only.
    pub lose_file-IsBacked :
        (id : ℕ) (r : WorkOrderPdf)
        → db.row orders id ≡ some r
        → IsBacked (id ∷ cut) orders (keep (λ k. not (text_eq k r.file_key)) files)
    lose_file-IsBacked id r there = record {
      backed = λ i a at. elim (Bool-cases (id == i)) [
        | inl same ↦ inr (inl (ground arith))
        | inr other ↦ elim (kept_file id r there i a at (ground arith)) [
          | inl filed ↦ inl filed
          | inr lost ↦ inr (inr lost)
        ]
      ];
      unique = h.unique;
    }

    pub more_cut : (id : ℕ) (row_goes : Bool) → IsBacked (cut_by id row_goes cut) orders files
    more_cut id true = h
    more_cut id false = record {
      backed =
          λ i a at. elim (h.backed i a at) [ inl filed ↦ inl filed | inr lost ↦ inr (inr lost) ];
      unique = h.unique;
    }
