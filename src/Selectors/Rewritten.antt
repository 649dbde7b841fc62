-- ===== src/Selectors/Rewritten.antt =====
-- Saving the entries of a report again.
use dmarcparser.Base.{
  ◌==◌, Bool-cases, ℕ, ◌+◌, ◌≡◌, refl, sym, ap, ◌∙◌, inl, inr, Bool, true, false, List, [], ◌∷◌,
  ◌++◌, arith,
}
use dmarcparser.Selectors.{
  DkimAuthEntry, DkimRow, DkimStmt, dkim_begin, dkim_delete, dkim_commit, dkim_insert,
  delete_serial, rows_for, inserts_succeed, save_dkim_auth,
}
use mathlib.Core.List.{append-nil}

delete_serial-rows_for :
    (serial : ℕ) (es : List DkimAuthEntry) → delete_serial serial (rows_for serial es) ≡ []
unfolding delete_serial rows_for
delete_serial-rows_for serial [] = refl
delete_serial-rows_for serial (e ∷ es) =
    let same : (serial == serial) ≡ true = ground arith in
    rw same (delete_serial-rows_for serial es)

delete_serial-append :
    (serial : ℕ) (xs ys : List DkimRow)
    → delete_serial serial (xs ++ ys) ≡ delete_serial serial xs ++ delete_serial serial ys
unfolding delete_serial
delete_serial-append serial [] ys = refl
delete_serial-append serial ((s, e) ∷ xs) ys = elim (Bool-cases (s == serial)) [
  | inl h ↦ rw h (delete_serial-append serial xs ys)
  | inr h ↦ rw h (ap (◌∷◌ (s, e)) (delete_serial-append serial xs ys))
]

delete_serial_idem :
    (serial : ℕ) (xs : List DkimRow)
    → delete_serial serial (delete_serial serial xs) ≡ delete_serial serial xs
unfolding delete_serial
delete_serial_idem serial [] = refl
delete_serial_idem serial ((s, e) ∷ xs) = elim (Bool-cases (s == serial)) [
  | inl h ↦ rw h (delete_serial_idem serial xs)
  | inr h ↦ rw h (rw h (ap (◌∷◌ (s, e)) (delete_serial_idem serial xs)))
]

inserts_succeed_total :
    (fails : DkimStmt → Bool) (n : ℕ) (es : List DkimAuthEntry)
    → ((s : DkimStmt) → fails s ≡ false)
    → inserts_succeed fails n es ≡ true
unfolding inserts_succeed
inserts_succeed_total fails n [] h = refl
inserts_succeed_total fails n (e ∷ es) h =
    rw (h (dkim_insert n)) (inserts_succeed_total fails (n + 1) es h)

pub save_dkim_auth_total :
    (fails : DkimStmt → Bool) (serial : ℕ) (es : List DkimAuthEntry) (t : List DkimRow)
    → ((s : DkimStmt) → fails s ≡ false)
    → save_dkim_auth fails serial es t ≡ (true, delete_serial serial t ++ rows_for serial es)
unfolding save_dkim_auth
save_dkim_auth_total fails serial es t h =
    rw (h dkim_begin, h dkim_delete, inserts_succeed_total fails 0 es h, h dkim_commit)

-- With no statement failing, saving entries for a report replaces all earlier ones of it: what was
-- saved before makes no difference, and saving the same entries twice is saving them once.
save_dkim_auth-save_dkim_auth :
    (fails : DkimStmt → Bool) (serial : ℕ) (es es' : List DkimAuthEntry) (t : List DkimRow)
    → ((s : DkimStmt) → fails s ≡ false)
    → save_dkim_auth fails serial es' (save_dkim_auth fails serial es t).1
      ≡ save_dkim_auth fails serial es' t
save_dkim_auth-save_dkim_auth fails serial es es' t h =
    rw (save_dkim_auth_total fails serial es t h) (
      save_dkim_auth_total fails serial es' _ h
      ∙ rw
          (
            delete_serial-append serial (delete_serial serial t) (rows_for serial es),
            delete_serial_idem serial t,
            delete_serial-rows_for serial es,
            append-nil (delete_serial serial t),
          )
          (sym (save_dkim_auth_total fails serial es' t h)))
