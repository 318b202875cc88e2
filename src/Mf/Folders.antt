-- ===== src/Mf/Folders.antt =====
-- An application folder list as an issuer writes it (JICSAP Annex D), and what parsing it gives.
use myna_card.Prelude.{◌≡◌, sym, ap, ◌∙◌, List, [], ◌∷◌, ◌++◌, append_assoc, append-nil, Bytes}
use myna_card.Error.{ok}
use myna_card.Tlv.Simple.{Tlv, tag_unused}
use myna_card.Tlv.Simple.Format.{Form}
use myna_card.Tlv.Simple.Iteration.{encode_all, AllFit, IsFiller, yields, simple_items-encode_all}
use myna_card.Mf.Records.{
  ApplicationFolders, tag_self, tag_child, tag_invalidated, add_folder, folder_loop, parse_folders,
}

-- The records of a list: the name of the folder itself, that of a subordinate one, one that was
-- made invalid, and one that is not in use.
pub data Slot : Type 0 where
  own child invalidated unused : Bytes → Slot

abbrev pub tlv_of : Slot → Tlv
tlv_of (own value) = record { tag = tag_self; value = value }
tlv_of (child value) = record { tag = tag_child; value = value }
tlv_of (invalidated value) = record { tag = tag_invalidated; value = value }
tlv_of (unused value) = record { tag = tag_unused; value = value }

abbrev pub objects : List (Form × Slot) → List (Form × Tlv)
objects [] = []
objects ((f, s) ∷ rest) = (f, tlv_of s) ∷ objects rest

-- The last own name, or the given one where there is none; the names of the subordinate folders.
abbrev pub own_name_of : Bytes → List (Form × Slot) → Bytes
own_name_of name [] = name
own_name_of name ((f, own value) ∷ rest) = own_name_of value rest
own_name_of name ((f, child value) ∷ rest) = own_name_of name rest
own_name_of name ((f, invalidated value) ∷ rest) = own_name_of name rest
own_name_of name ((f, unused value) ∷ rest) = own_name_of name rest

abbrev pub children_of : List (Form × Slot) → List Bytes
children_of [] = []
children_of ((f, own value) ∷ rest) = children_of rest
children_of ((f, child value) ∷ rest) = value ∷ children_of rest
children_of ((f, invalidated value) ∷ rest) = children_of rest
children_of ((f, unused value) ∷ rest) = children_of rest

abbrev pub folders : Bytes → List Bytes → ApplicationFolders
folders name children = record { own_name = name; children = children }

folder_loop-slots :
    (slots : List (Form × Slot)) (name : Bytes) (children : List Bytes)
    → folder_loop (yields (objects slots)) (folders name children)
      ≡ ok (folders (own_name_of name slots) (children ++ children_of slots))
unfolding folder_loop add_folder
folder_loop-slots [] name children = ap (λ x. ok (folders name x)) (sym (append-nil children))
folder_loop-slots ((f, own value) ∷ rest) name children = folder_loop-slots rest value children
folder_loop-slots ((f, child value) ∷ rest) name children =
    folder_loop-slots rest name (children ++ (value ∷ []))
    ∙ ap (λ x. ok (folders (own_name_of name rest) x))
        (append_assoc children (value ∷ []) (children_of rest))
folder_loop-slots ((f, invalidated value) ∷ rest) name children =
    folder_loop-slots rest name children
folder_loop-slots ((f, unused value) ∷ rest) name children = folder_loop-slots rest name children

-- Of an application folder list that an issuer has written, each record in either form of length
-- that holds it, followed by nothing or by erased bytes, `ApplicationFolders::parse` returns the
-- last own name, empty where there is none, and the names of the subordinate folders in order; it
-- passes over the records that are invalid or not in use.
pub parse_folders-objects :
    (slots : List (Form × Slot)) (filler : Bytes)
    → AllFit (objects slots)
    → IsFiller filler
    → parse_folders (encode_all (objects slots) ++ filler)
      ≡ ok (folders (own_name_of [] slots) (children_of slots))
unfolding parse_folders
parse_folders-objects slots filler fit h =
    ap (λ x. folder_loop x (folders [] [])) (simple_items-encode_all (objects slots) filler fit h)
    ∙ folder_loop-slots slots [] []
