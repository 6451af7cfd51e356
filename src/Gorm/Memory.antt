-- ===== src/Gorm/Memory.antt =====
-- A table in memory that never fails, which meets the laws of `Gorm`.
use cloud_service_broker.Prelude.{
  ◌≡◌, refl, ℕ, Bool, Option, some, none, List, [], ◌∷◌, ◌++◌, arith, length,
}
use cloud_service_broker.Prelude.Rows.{find, remove, upsert}
use cloud_service_broker.Outcome.{Error, Result, ok, err, record_not_found}
use cloud_service_broker.Gorm.{Gorm}

abbrev pub found : {Row : Type 0} → Option Row → Result Row
found none = err record_not_found
found (some r) = ok r

pub found-ok : {Row : Type 0} (o : Option Row) (r : Row) → found o ≡ ok r → o ≡ some r
found-ok none r h = ground arith
found-ok (some x) r h = ground arith

pub found-err : {Row : Type 0} (o : Option Row) (e : Error) → found o ≡ err e → o ≡ none
found-err none e h = refl
found-err (some x) e h = ground arith

pub ok-ne-err : {A : Type 0} {B : Type 0} (a : A) (e : Error) → ok a ≡ err e → B
ok-ne-err a e h = cc

abbrev pub memory :
    {Row : Type 0} (same : Row → Row → Bool) (stamp : ℕ → Row → Row) → Gorm Row same stamp
memory {Row} same stamp = record {
  Table = List Row;
  live = λ t. t;
  first = λ c t. found (find c t);
  create = λ r t. (ok tt, t ++ (stamp (length t) r ∷ []));
  save = λ r t. (ok tt, upsert same r t);
  delete = λ c t. (ok tt, remove c t);
  first_ok = λ c t r h. found-ok (find c t) r h;
  first_missing = λ c t e h _. found-err (find c t) e h;
  create_ok = λ r t _. (length t, refl);
  create_err = λ r t e h. ok-ne-err tt e h;
  save_ok = λ r t _ _. refl;
  save_err = λ r t e h. ok-ne-err tt e h;
  delete_ok = λ c t _. refl;
  delete_err = λ c t e h. ok-ne-err tt e h;
}
