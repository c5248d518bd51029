-- ===== src/Clients.antt =====
-- backend/src/adapters/weaviate/client.py and backend/src/adapters/ollama/client.py: the clients of the
-- vector store and of the language model, over what the services answer.
pub mod Weaviate
pub mod Ollama
