-- ===== src/OsModule.antt =====
-- sdk_port/os/OSModule.c: the list of linked modules, in host memory. `OSNotifyLink` and
-- `OSNotifyUnlink` do nothing.
pub mod Links
pub mod Unlink
mod Tests
use gamecube_port.Base.{ℕ, Bool, true, false, not, ◌&&◌, ◌||◌, ◌==◌, if◌then◌else◌}
use gamecube_port.GcMem.{update}

-- `__OSModuleInfoList`, the `link` fields of the modules by their addresses, and `__OSStringTable`.
pub record Modules : Type 0 where
  pub head : ℕ
  pub tail : ℕ
  pub prev : ℕ → ℕ
  pub next : ℕ → ℕ
  pub string_table : ℕ

-- `OSSetStringTable`
unfoldable pub set_string_table : ℕ → Modules → Modules
set_string_table table st = record st { string_table = table }

-- A null link field and a module that is not the head: the module is in no list.
abbrev pub is_known : Modules → ℕ → Bool
is_known st x = (st.head == x) || not (st.prev x == 0) || not (st.next x == 0)

-- `OSLink`
unfoldable pub link : ℕ → Modules → Bool × Modules
link x st =
    let prev = update st.prev x st.tail in
    let next = update st.next x 0 in
    if x == 0
    then (false, st)
    else if is_known st x
    then (true, st)
    else if st.tail == 0
    then (true, record st { head = x; tail = x; prev = prev; next = next })
    else (true, record st { tail = x; prev = prev; next = update next st.tail x })

-- `OSUnlink`
unfoldable pub unlink : ℕ → Modules → Bool × Modules
unlink x st =
    let p = st.prev x in
    let n = st.next x in
    let st1 = if p == 0 then record st { head = n } else record st { next = update st.next p n } in
    let n1 = st1.next x in
    let st2 =
      if n1 == 0
      then record st1 { tail = st1.prev x }
      else record st1 { prev = update st1.prev n1 (st1.prev x) } in
    if x == 0
    then (false, st)
    else if not (is_known st x)
    then (false, st)
    else (true, record st2 { prev = update st2.prev x 0; next = update st2.next x 0 })
