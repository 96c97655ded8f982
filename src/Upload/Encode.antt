-- ===== src/Upload/Encode.antt =====
-- `JSON.stringify` of parts and items: the JSON values that the store writes.
use ilist.Base.{String, Option, none, some, List, [], ◌∷◌, ℕ}
use ilist.Json.{Json, null, str, num, arr, obj, Items, nil, cons, end, field}
use ilist.Upload.Row.{CompletedUploadPart, StorageItem, ItemKind, file, folder}

abbrev pub text_json : Option String → Json
text_json none = null
text_json (some s) = str s

abbrev pub size_json : Option ℕ → Json
size_json none = null
size_json (some n) = num n

unfoldable pub part_json : CompletedUploadPart → Json
part_json part = obj (
    field "partNumber" (num part.part_number)
      (field "size" (num part.size) (field "etag" (text_json part.etag) end)))

unfoldable pub part_items : List CompletedUploadPart → Items
part_items [] = nil
part_items (p ∷ ps) = cons (part_json p) (part_items ps)

unfoldable pub parts_json : List CompletedUploadPart → Json
unfolding part_items
parts_json parts = arr (part_items parts)

unfoldable pub kind_text : ItemKind → String
kind_text file = "file"
kind_text folder = "folder"

unfoldable pub item_json : StorageItem → Json
unfolding kind_text
item_json item = obj (
    field "id" (str item.id) (
      field "parentId" (text_json item.parent_id) (
        field "name" (str item.name) (
          field "kind" (str (kind_text item.kind)) (
            field "size" (size_json item.size) (
              field "contentType" (text_json item.content_type) (
                field "modifiedAt" (text_json item.modified_at)
                  (field "etag" (text_json item.etag) end))))))))
