-- ===== src/Export/Support.antt =====
-- The files that export_support_files writes (include/pcp-cpp/pmda.hpp).
use pcp_pmda_cpp.Base.{
  ◌≡◌, refl, ap, ◌∙◌, sym, subst, Bool, Bool-cases, inl, inr, true, false, Text, codes, text_eq,
  ◌++◌, List, [], ◌∷◌, if◌then◌else◌, ◌||◌, arith,
}
use pcp_pmda_cpp.Pcp.{Pmapi}
use pcp_pmda_cpp.Exception.{Result, ok, err, pcp, exception}
use pcp_pmda_cpp.Pmda.State.{Pmda, Method, ◌>>◌}
use pcp_pmda_cpp.Export.Files.{
  Identity, dash, domain_header, pmns_root, write_file, export_domain_header, export_pmns_root,
}
use pcp_pmda_cpp.Export.Pmns.{pmns_data, export_pmns_data}
use pcp_pmda_cpp.Export.Help.{help_text, export_help_text, export_support_files}

abbrev path : Pmapi → Text → Text → Text
path api directory name = directory ++ api.path_separator ∷ [] ++ name

abbrev header_file : Pmapi → Identity → Text → Text × Text
header_file api id directory = (path api directory (codes "domain.h"), domain_header id)

abbrev root_file : Pmapi → Identity → Text → Text × Text
root_file api id directory = (path api directory (codes "root"), pmns_root id)

module _ (api : Pmapi) (can_open : Text → Bool) where
  abbrev pub is_openable : Text → Bool
  is_openable name = text_eq name dash || can_open name

  -- What is left of `output` when files are written in order, up to the first that cannot be opened.
  abbrev pub written_onto : List (Text × Text) → List (Text × Text) → List (Text × Text)
  written_onto [] output = output
  written_onto ((name, content) ∷ files) output =
      let rest = written_onto files ((name, content) ∷ output) in
      if is_openable name then rest else output

  abbrev refusal : Text → Result (Unit {0})
  refusal name =
      err (pcp (exception api api.err_generic (codes "failed to open file for writing: " ++ name)))

  -- The first file that cannot be opened is what the exception is about.
  abbrev pub first_refused : List (Text × Text) → Result (Unit {0})
  first_refused [] = ok tt
  first_refused ((name, content) ∷ files) =
      let rest = first_refused files in if is_openable name then rest else refusal name

  -- A method that ends so, where `output` was there before, wrote these files in order, up to the
  -- first that it could not open.
  abbrev IsInOrder {ℓ} :
      {S : Type ℓ} → List (Text × Text) → List (Text × Text) → Result (Unit {0}) × Pmda S → Type 0
  IsInOrder files output (r, s') =
      (r ≡ first_refused files) × (s'.output ≡ written_onto files output)

  -- The method writes one file; where that succeeds it leaves the state `s'`.
  abbrev IsWrite {ℓ} : {S : Type ℓ} → Text × Text → Method S (Unit {0}) → Pmda S → Pmda S → Type ℓ
  IsWrite file m s s' = m s ≡ (if is_openable file.0 then (ok tt, s') else (refusal file.0, s))

  write_file-IsWrite {ℓ} :
      {S : Type ℓ} (name content : Text) (s : Pmda S)
      → IsWrite
          (name, content)
          (write_file api can_open name content)
          s
          (record s { output = (name, content) ∷ s.output })
  unfolding write_file
  write_file-IsWrite name content s = ground arith

  then-IsInOrder {ℓ} :
      {S : Type ℓ} (file : Text × Text) (files : List (Text × Text)) (m k : Method S (Unit {0}))
      (s s' : Pmda S)
      → IsWrite file m s s'
      → s'.output ≡ file ∷ s.output
      → IsInOrder files s'.output (k s')
      → IsInOrder (file ∷ files) s.output ((m >> k) s)
  then-IsInOrder file files m k s s' e o (r, w) =
      subst (λ x. IsInOrder (file ∷ files) s.output (((λ t. x) >> k) s)) (sym e)
        (elim (Bool-cases (is_openable file.0)) [
          | inl f ↦ rw f (r, w ∙ ap (written_onto files) o)
          | inr f ↦ rw f (refl, refl)
        ])

  last-IsInOrder {ℓ} :
      {S : Type ℓ} (file : Text × Text) (m : Method S (Unit {0})) (s s' : Pmda S)
      → IsWrite file m s s'
      → s'.output ≡ file ∷ s.output
      → IsInOrder (file ∷ []) s.output (m s)
  last-IsInOrder file m s s' e o =
      subst (IsInOrder (file ∷ []) s.output) (sym e) (elim (Bool-cases (is_openable file.0)) [
        | inl f ↦ rw f (refl, o)
        | inr f ↦ rw f (refl, refl)
      ])

  then_assoc {ℓ} :
      {S : Type ℓ} (x : Result (Unit {0}) × Pmda S) (k l : Method S (Unit {0})) (s : Pmda S)
      → ((λ t. x) >> k >> l) s ≡ ((λ t. x) >> (k >> l)) s
  then_assoc (ok u, t) k l s = refl
  then_assoc (err e, t) k l s = refl

  module _ {ℓ} {S : Type ℓ} (id : Identity) (directory : Text) where
    -- The files, and what each is to have.
    abbrev help_file : Pmda S → Text × Text
    help_file s = (path api directory (codes "help"), help_text s.heap id s.supported_metrics)

    abbrev names_file : Pmda S → Text × Text
    names_file s = (
      path api directory (codes "pmns"),
      (pmns_data id s.supported_metrics s.previous_cluster_name).0,
    )

    abbrev pub support_files : Pmda S → List (Text × Text)
    support_files s =
        (header_file api id directory)
        ∷ help_file s
        ∷ names_file s
        ∷ (root_file api id directory)
        ∷ []

    abbrev after_file : Text × Text → Pmda S → Pmda S
    after_file file s = record s { output = file ∷ s.output }

    abbrev after_names : Pmda S → Pmda S
    after_names s = record (after_file (names_file s) s) {
      previous_cluster_name = (pmns_data id s.supported_metrics s.previous_cluster_name).1;
    }

    export_domain_header-IsWrite :
        (f : Text) (s : Pmda S)
        → IsWrite
            (f, domain_header id)
            (export_domain_header api can_open id f)
            s
            (record s { output = (f, domain_header id) ∷ s.output })
    unfolding export_domain_header
    export_domain_header-IsWrite f s = write_file-IsWrite f (domain_header id) s

    export_help_text-IsWrite :
        (f : Text) (s : Pmda S)
        → IsWrite
            (f, help_text s.heap id s.supported_metrics)
            (export_help_text api can_open id f)
            s
            (record s { output = (f, help_text s.heap id s.supported_metrics) ∷ s.output })
    unfolding export_help_text
    export_help_text-IsWrite f s = write_file-IsWrite f (help_text s.heap id s.supported_metrics) s

    export_pmns_root-IsWrite :
        (f : Text) (s : Pmda S)
        → IsWrite
            (f, pmns_root id)
            (export_pmns_root api can_open id f)
            s
            (record s { output = (f, pmns_root id) ∷ s.output })
    unfolding export_pmns_root
    export_pmns_root-IsWrite f s = write_file-IsWrite f (pmns_root id) s

    abbrev remembering : Text → Result (Unit {0}) × Pmda S → Result (Unit {0}) × Pmda S
    remembering previous x =
        let (r, s) = x in
        elim r [ ok u ↦ (ok u, record s { previous_cluster_name = previous }) | err e ↦ (err e, s) ]

    remembering_if :
        (previous : Text) (b : Bool) (x y : Result (Unit {0}) × Pmda S)
        → remembering previous (if b then x else y)
          ≡ (if b then remembering previous x else remembering previous y)
    remembering_if previous true x y = refl
    remembering_if previous false x y = refl

    export_pmns_data-IsWrite :
        (f : Text) (s : Pmda S)
        → let (content, previous) = pmns_data id s.supported_metrics s.previous_cluster_name in
          IsWrite
            (f, content)
            (export_pmns_data api can_open id f)
            s
            (record s { output = (f, content) ∷ s.output; previous_cluster_name = previous })
    unfolding export_pmns_data
    export_pmns_data-IsWrite f s =
        let (content, previous) = pmns_data id s.supported_metrics s.previous_cluster_name in
        ap (remembering previous) (write_file-IsWrite f content s)
        ∙ remembering_if previous (is_openable f)
            (ok tt, record s { output = (f, content) ∷ s.output }) (refusal f, s)

    -- The four files are written in this order: the header, the help texts, the names and the root of
    -- the names. Where one of them cannot be opened, the exception that is thrown names it, the ones
    -- before it stay written, and the ones after it are not written.
    pub export_support_files-written :
        (s : Pmda S)
        → let (r, s') = export_support_files api can_open id directory s in
          (r ≡ first_refused (support_files s))
          × (s'.output ≡ written_onto (support_files s) s.output)
    unfolding export_support_files
    export_support_files-written s =
        let header = export_domain_header api can_open id (path api directory (codes "domain.h")) in
        let help = export_help_text api can_open id (path api directory (codes "help")) in
        let names = export_pmns_data api can_open id (path api directory (codes "pmns")) in
        let root = export_pmns_root api can_open id (path api directory (codes "root")) in
        let t = after_file (header_file api id directory) s in
        let u = after_file (help_file s) t in
        let ordered =
          then-IsInOrder (header_file api id directory)
            (help_file s ∷ names_file s ∷ (root_file api id directory) ∷ []) header
            (help >> (names >> root)) s t
            (export_domain_header-IsWrite (header_file api id directory).0 s) refl
            (then-IsInOrder (help_file s) (names_file s ∷ (root_file api id directory) ∷ []) help
              (names >> root) t u (export_help_text-IsWrite (help_file s).0 t) refl
              (then-IsInOrder (names_file s) ((root_file api id directory) ∷ []) names root u
                (after_names u) (export_pmns_data-IsWrite (names_file s).0 u) refl
                (last-IsInOrder (root_file api id directory) root (after_names u)
                  (after_file (root_file api id directory) (after_names u))
                  (export_pmns_root-IsWrite (root_file api id directory).0 (after_names u))
                  refl))) in
        subst (IsInOrder (support_files s) s.output)
          (sym (
            then_assoc ((header >> help) s) names root s
            ∙ then_assoc (header s) help (names >> root) s))
          ordered
