-- ===== src/File/Save.antt =====
-- `Save` replaces the file whole or leaves it alone.
use metrics_alerting_service.Prelude.{
  ℕ, String, ◌≡◌, refl, ◌∙◌, ap, ◌≢◌, Option, none, some, inl, inr, ◌⊎◌, eq_iff, eq_refl, arith,
}
use metrics_alerting_service.Dict.{Dict}
use metrics_alerting_service.Errors.{Error, Result, ok, err}
use metrics_alerting_service.Repository.{Storage}
use metrics_alerting_service.File.{
  FileSystem, Codec, after_close, after_write, after_create, replace_file, save_encoded, save,
  snapshot,
}
use metrics_alerting_service.File.Laws.{FileSystemLaws}

module _ {B W : Type 0} (fs : FileSystem B W) (law : FileSystemLaws fs) where
  open law use {contents, empty}

  -- The outcome of a replacement of the file `f` by `new`, begun in `w`.
  abbrev pub IsReplaced : W → String → B → Option Error × W → Type 0
  IsReplaced w f new (none, w') = contents w' f ≡ some new
  IsReplaced w f new (some _, w') = contents w' f ≡ contents w f

  IsReplaced-cases :
      (w : W) (f : String) (new : B) (r : Option Error × W)
      → (r.0 ≡ none → contents r.1 f ≡ some new)
      → ((e : Error) → r.0 ≡ some e → contents r.1 f ≡ contents w f)
      → IsReplaced w f new r
  IsReplaced-cases w f new (none, w') p q = p refl
  IsReplaced-cases w f new (some e, w') p q = q e refl

  module _ (t f : String) (new : B) (w : W) (apart : t ≢ f) where
    rename_outcome :
        (v : W)
        → contents v t ≡ some new
        → contents v f ≡ contents w f
        → IsReplaced w f new (fs.rename t f v)
    rename_outcome v ht hf =
        IsReplaced-cases w f new (fs.rename t f v) (λ h. law.rename_ok t f v h ∙ ht)
          (λ e h. law.rename_err t f e v f h ∙ hf)

    after_close_outcome :
        (r : Option Error × W)
        → contents r.1 t ≡ some new
        → contents r.1 f ≡ contents w f
        → IsReplaced w f new (after_close fs t f r)
    unfolding after_close
    after_close_outcome (some e, v) ht hf = law.remove_other t f v apart ∙ hf
    after_close_outcome (none, v) ht hf = rename_outcome v ht hf

    after_write_outcome :
        (r : Option Error × W)
        → (r.0 ≡ none → contents r.1 t ≡ some new)
        → contents r.1 f ≡ contents w f
        → IsReplaced w f new (after_write fs t f r)
    unfolding after_write
    after_write_outcome (some e, v) ht hf =
        law.remove_other t f (fs.close t v).1 apart ∙ law.close_lem t f v ∙ hf
    after_write_outcome (none, v) ht hf =
        after_close_outcome (fs.close t v) (law.close_lem t t v ∙ ht refl)
          (law.close_lem t f v ∙ hf)

  after_create_outcome :
      (f : String) (new : B) (w : W) (r : Result String × W)
      → ((t : String)
          → r.0 ≡ ok t
          → (t ≢ f) × (contents r.1 t ≡ some empty) × (contents r.1 f ≡ contents w f))
      → ((e : Error) → r.0 ≡ err e → contents r.1 f ≡ contents w f)
      → IsReplaced w f new (after_create fs new f r)
  unfolding after_create
  after_create_outcome f new w (err e, v) p q = q e refl
  after_create_outcome f new w (ok t, v) p q =
      let (apart, ht, hf) = p t refl in
      after_write_outcome t f new w apart (fs.write t new v) (λ h. law.write_ok t new v ht h)
        (law.write_other t f new v apart ∙ hf)

  -- a temporary file is new, so it is not a file that was there
  temporary_apart :
      (t f : String) (old : B) (w : W) → contents w f ≡ some old → contents w t ≡ none → t ≢ f
  temporary_apart t f old w h n e = cc (ap (contents w) e)

  replace_file-IsReplaced :
      (f : String) (old new : B) (w : W)
      → contents w f ≡ some old
      → IsReplaced w f new (replace_file fs f new w)
  unfolding replace_file
  replace_file-IsReplaced f old new w h =
      after_create_outcome f new w (fs.create_temp (fs.dir f) w)
        (λ t e.
          let apart = temporary_apart t f old w h (law.create_temp_new (fs.dir f) t w e) in
          (
            apart,
            rw (law.create_temp_ok (fs.dir f) t w t e, eq_refl t),
            ground (arith, law.create_temp_ok (fs.dir f) t w f e, eq_iff t f),
          ))
        (λ e h'. law.create_temp_err (fs.dir f) e w f h')

  after_close-ok :
      (t f : String) (new : B) (r : Option Error × W)
      → contents r.1 t ≡ some new
      → (after_close fs t f r).0 ≡ none
      → contents (after_close fs t f r).1 f ≡ some new
  unfolding after_close
  after_close-ok t f new (some e, v) ht h = cc
  after_close-ok t f new (none, v) ht h = law.rename_ok t f v h ∙ ht

  after_write-ok :
      (t f : String) (new : B) (r : Option Error × W)
      → (r.0 ≡ none → contents r.1 t ≡ some new)
      → (after_write fs t f r).0 ≡ none
      → contents (after_write fs t f r).1 f ≡ some new
  unfolding after_write
  after_write-ok t f new (some e, v) ht h = cc
  after_write-ok t f new (none, v) ht h =
      after_close-ok t f new (fs.close t v) (law.close_lem t t v ∙ ht refl) h

  after_create-ok :
      (f : String) (new : B) (r : Result String × W)
      → ((t : String) → r.0 ≡ ok t → contents r.1 t ≡ some empty)
      → (after_create fs new f r).0 ≡ none
      → contents (after_create fs new f r).1 f ≡ some new
  unfolding after_create
  after_create-ok f new (err e, v) p h = cc
  after_create-ok f new (ok t, v) p h =
      after_write-ok t f new (fs.write t new v) (λ h'. law.write_ok t new v (p t refl) h') h

  -- without an error the file holds the new contents, whether it was there before or not
  pub replace_file-ok :
      (f : String) (new : B) (w : W)
      → (replace_file fs f new w).0 ≡ none
      → contents (replace_file fs f new w).1 f ≡ some new
  unfolding replace_file
  replace_file-ok f new w h =
      after_create-ok f new (fs.create_temp (fs.dir f) w)
        (λ t e. rw (law.create_temp_ok (fs.dir f) t w t e, eq_refl t)) h

  -- How a save of the encoding `x` over a file that held `old` may end.
  abbrev pub IsOutcome : String → B → Result B → Option Error → W → Type 0
  IsOutcome f old x e w' =
      ((b : B) × (e ≡ none) × (x ≡ ok b) × (contents w' f ≡ some b))
      ⊎ (e ≢ none) × (contents w' f ≡ some old)

  replaced-IsOutcome :
      (f : String) (old new : B) (w : W) (r : Option Error × W)
      → contents w f ≡ some old
      → IsReplaced w f new r
      → IsOutcome f old (ok new) r.0 r.1
  replaced-IsOutcome f old new w (none, w') h q = inl (new, refl, refl, q)
  replaced-IsOutcome f old new w (some e, w') h q = inr (λ p. cc, q ∙ h)

module _ {B S W : Type 0} (range : Dict ℕ → Dict ℕ) (json : Codec B) (fs : FileSystem B W)
    (law : FileSystemLaws fs) (repo : Storage S) where
  open law use {contents, empty}

  -- what `Save` encodes
  abbrev pub encoded : S → Result B
  encoded s = json.marshal (snapshot (range (repo.get_all s).0) (range (repo.get_all s).1))

  save_encoded-IsOutcome :
      (f : String) (old : B) (x : Result B) (s : S) (w : W)
      → contents w f ≡ some old
      → let r = save_encoded range json fs f x s w in IsOutcome fs law f old x r.0 r.2
  unfolding save_encoded
  save_encoded-IsOutcome f old (err e) s w h = inr (λ p. cc, h)
  save_encoded-IsOutcome f old (ok new) s w h =
      replaced-IsOutcome fs law f old new w (replace_file fs f new w) h
        (replace_file-IsReplaced fs law f old new w h)

  -- `Save` over an existing file ends in one of two ways: it returns no error and the file holds
  -- the whole encoding of the storage, or it returns an error and the file holds what it held.
  pub save-IsOutcome :
      (f : String) (old : B) (s : S) (w : W)
      → contents w f ≡ some old
      → let r = save range json fs repo f s w in IsOutcome fs law f old (encoded s) r.0 r.2
  unfolding save
  save-IsOutcome f old s w h = save_encoded-IsOutcome f old (encoded s) (repo.get_all s).2 w h

  save_encoded-ok :
      (f : String) (x : Result B) (s : S) (w : W)
      → (save_encoded range json fs f x s w).0 ≡ none
      → (b : B) × (x ≡ ok b) × (contents (save_encoded range json fs f x s w).2 f ≡ some b)
  unfolding save_encoded
  save_encoded-ok f (err e) s w h = cc
  save_encoded-ok f (ok new) s w h = (new, refl, replace_file-ok fs law f new w h)

  -- A save with no error leaves the encoding of the storage in the file.
  pub save-ok :
      (f : String) (s : S) (w : W)
      → (save range json fs repo f s w).0 ≡ none
      → (b : B) × (encoded s ≡ ok b) × (contents (save range json fs repo f s w).2 f ≡ some b)
  unfolding save
  save-ok f s w h = save_encoded-ok f (encoded s) (repo.get_all s).2 w h
